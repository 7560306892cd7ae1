-- ===== src/Strconv.antt =====
-- What the code uses of Go's package strconv: ParseInt in base 10 with 64 bits, and Atoi, which on
-- a 64-bit platform reads the same texts. An error is `none`.
mod Bounds
pub mod RoundTrip
use recsys_pipeline.Common.{
  ℕ, ◌+◌, ◌-◌, ◌*◌, ◌^◌, Bool, Option, none, some, [], ◌∷◌, ◌&&◌, ltb, leb, ◌==◌, if◌then◌else◌,
}
use recsys_pipeline.Common.Int.{ℤ, pos, negsuc}
use recsys_pipeline.Common.Text.{Text}

abbrev pub is_digit : ℕ → Bool
is_digit c = leb b'0' c && leb c b'9'

-- The digits that are left, behind those that make `acc`.
digits_from : ℕ → Text → Option ℕ
digits_from acc [] = some acc
digits_from acc (c ∷ s) =
    let rest = digits_from (acc * 10 + (c - b'0')) s in if is_digit c then rest else none

digits : Text → Option ℕ
unfolding digits_from
digits [] = none
digits (c ∷ s) = digits_from 0 (c ∷ s)

-- A magnitude of up to 2 ^ 63 - 1, or 2 ^ 63 behind a minus sign.
non_negative : Option ℕ → Option ℤ
non_negative none = none
non_negative (some n) = if ltb n (2 ^ 63) then some (pos n) else none

negate : ℕ → ℤ
negate n = if n == 0 then pos 0 else negsuc (n - 1)

negative : Option ℕ → Option ℤ
unfolding negate
negative none = none
negative (some n) = if leb n (2 ^ 63) then some (negate n) else none

unfoldable pub parse_int : Text → Option ℤ
unfolding digits non_negative negative
parse_int [] = none
parse_int (c ∷ s) =
    if c == b'-'
    then negative (digits s)
    else if c == b'+'
    then non_negative (digits s)
    else non_negative (digits (c ∷ s))

unfoldable pub atoi : Text → Option ℤ
unfolding parse_int
atoi s = parse_int s
