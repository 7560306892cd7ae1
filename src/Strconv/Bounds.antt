-- ===== src/Strconv/Bounds.antt =====
-- The range of what is read, and runs on short texts.
use recsys_pipeline.Common.{ℕ, ◌^◌, ◌<◌, ◌≤◌, ◌≡◌, refl, Option, none, some, [], ◌∷◌, arith}
use recsys_pipeline.Common.Int.{ℤ, pos, negsuc, pos_part, neg_part}
use recsys_pipeline.Common.Text.{Text, text}
use recsys_pipeline.Strconv.{digits, non_negative, negative, parse_int, atoi}

non_negative-range :
    (d : Option ℕ) {z : ℤ} → non_negative d ≡ some z → (pos_part z < 2 ^ 63) × (neg_part z ≤ 2 ^ 63)
unfolding non_negative
non_negative-range d h = ground arith

negative-range :
    (d : Option ℕ) {z : ℤ} → negative d ≡ some z → (pos_part z < 2 ^ 63) × (neg_part z ≤ 2 ^ 63)
unfolding negative
negative-range d h = ground arith

-- What is read is an `int64`.
pub parse_int-range :
    (s : Text) {z : ℤ} → parse_int s ≡ some z → (pos_part z < 2 ^ 63) × (neg_part z ≤ 2 ^ 63)
unfolding parse_int
parse_int-range [] h = absurd (ground arith)
parse_int-range (c ∷ s) h = ground (
  arith,
  negative-range (digits s),
  non_negative-range (digits s),
  non_negative-range (digits (c ∷ s)),
)

reads_signs :
    (parse_int (text "-42") ≡ some (negsuc 41))
    × (atoi (text "+07") ≡ some (pos 7))
    × (atoi (text "12x") ≡ none)
    × (atoi (text "") ≡ none)
    × (atoi (text "9223372036854775808") ≡ none)
    × (parse_int (text "-9223372036854775808") ≡ some (negsuc 9223372036854775807))
unfolding parse_int atoi digits
reads_signs = (refl, refl, refl, refl, refl, refl)
