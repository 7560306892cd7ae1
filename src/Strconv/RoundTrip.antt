-- ===== src/Strconv/RoundTrip.antt =====
-- Numbers that are printed and read back: `%d` and `%0wd` against ParseInt.
use recsys_pipeline.Common.{
  ℕ, zero, suc, ◌+◌, ◌-◌, ◌/◌, ◌%◌, ◌^◌, ◌<◌, ◌≤◌, ◌≡◌, refl, sym, ap, ◌∙◌, some, [], ◌∷◌, ◌++◌,
  replicate, length, arith, ltb, Bool-cases, inl, inr,
}
use recsys_pipeline.Common.Int.{pos}
use recsys_pipeline.Common.Text.{Text}
use recsys_pipeline.Common.Decimal.{digits_onto, itoa, pad_zero}
use recsys_pipeline.Strconv.{digits_from, digits, non_negative, parse_int}

last_digit : (n : ℕ) (acc : Text) → digits_from (n / 10) ((n % 10 + b'0') ∷ acc) ≡ digits_from n acc
unfolding digits_from
last_digit n acc = ground arith

only_digit : (n : ℕ) (acc : Text) → n < 10 → digits_from 0 ((n + b'0') ∷ acc) ≡ digits_from n acc
unfolding digits_from
only_digit n acc h = ground arith

digits_from-onto :
    (fuel n : ℕ) (acc : Text)
    → n < fuel
    → digits_from 0 (digits_onto fuel n acc) ≡ digits_from n acc
unfolding digits_onto
digits_from-onto zero n acc h = absurd (omega arith)
digits_from-onto (suc fuel) n acc h = elim (Bool-cases (ltb n 10)) [
  | inl e ↦ rw e (only_digit n acc (ground arith))
  | inr e ↦
      rw e
        (digits_from-onto fuel (n / 10) ((n % 10 + b'0') ∷ acc) (ground arith) ∙ last_digit n acc)
]

leading_zero : (s : Text) → digits_from 0 (b'0' ∷ s) ≡ digits_from 0 s
unfolding digits_from
leading_zero s = refl

digits_from-zeros : (k : ℕ) (s : Text) → digits_from 0 (replicate k b'0' ++ s) ≡ digits_from 0 s
digits_from-zeros zero s = refl
digits_from-zeros (suc k) s = leading_zero (replicate k b'0' ++ s) ∙ digits_from-zeros k s

digits_from-itoa : (n : ℕ) → digits_from 0 (itoa n) ≡ some n
unfolding itoa digits_from
digits_from-itoa n = digits_from-onto (suc n) n [] (omega arith)

digits_from-pad_zero : (w n : ℕ) → digits_from 0 (pad_zero w n) ≡ some n
unfolding pad_zero
digits_from-pad_zero w n = digits_from-zeros (w - length (itoa n)) (itoa n) ∙ digits_from-itoa n

-- What is padded to a width tells the number.
pub pad_zero_injective : (w n m : ℕ) → pad_zero w n ≡ pad_zero w m → n ≡ m
pad_zero_injective w n m e =
    let reads : some n ≡ some m =
      sym (digits_from-pad_zero w n) ∙ ap (digits_from 0) e ∙ digits_from-pad_zero w m in
    cc

-- A number is printed with one digit at least, and with no more than it takes.
digits_onto_grow : (fuel n : ℕ) (acc : Text) → length acc ≤ length (digits_onto fuel n acc)
unfolding digits_onto
digits_onto_grow zero n acc = omega arith
digits_onto_grow (suc fuel) n acc =
    ground (arith, digits_onto_grow fuel (n / 10) ((n % 10 + b'0') ∷ acc))

pub itoa_nonempty : (n : ℕ) → 0 < length (itoa n)
unfolding itoa digits_onto
itoa_nonempty n = ground (arith, digits_onto_grow n (n / 10) ((n % 10 + b'0') ∷ []))

parse_int-digits :
    (s : Text) (n : ℕ)
    → 0 < length s
    → digits_from 0 s ≡ some n
    → n < 2 ^ 63
    → parse_int s ≡ some (pos n)
unfolding parse_int digits digits_from non_negative
parse_int-digits [] n h e lt = absurd (omega arith)
parse_int-digits (c ∷ s) n h e lt = ground arith

-- A number below 2 ^ 63 that is printed in decimal is read back as itself.
pub parse_int-itoa : (n : ℕ) → n < 2 ^ 63 → parse_int (itoa n) ≡ some (pos n)
parse_int-itoa n lt = parse_int-digits (itoa n) n (itoa_nonempty n) (digits_from-itoa n) lt
