-- ===== src/Common/Decimal.antt =====
-- Decimal output: `%d` of a number that is not negative, and `%0wd` with leading zeros.
use Prim.Native.Nat.{ℕ, zero, suc, ◌+◌, ◌-◌, ◌/◌, ◌%◌}
use mathlib.Core.List.{[], ◌∷◌, ◌++◌}
use recsys_pipeline.Common.Tests.{ltb, if◌then◌else◌}
use recsys_pipeline.Common.Lists.{length, replicate}
use recsys_pipeline.Common.Text.{Text}

-- The digits of `n` in front of `acc`; `n + 1` rounds are enough.
unfoldable pub digits_onto : ℕ → ℕ → Text → Text
digits_onto zero n acc = acc
digits_onto (suc fuel) n acc =
    let rest = digits_onto fuel (n / 10) ((n % 10 + b'0') ∷ acc) in
    if ltb n 10 then (n + b'0') ∷ acc else rest

unfoldable pub itoa : ℕ → Text
unfolding digits_onto
itoa n = digits_onto (suc n) n []

unfoldable pub pad_zero : ℕ → ℕ → Text
unfolding itoa
pad_zero width n = replicate (width - length (itoa n)) b'0' ++ itoa n
