-- ===== src/Common/Results.antt =====
-- What a Go function returns: its values, an error, or a panic. An action also threads a state
-- through its calls.
use mathlib.Core.List.{List}
use Prim.Native.Nat.{ℕ}

-- The message of a Go `error`, as its bytes.
abbrev pub Error : Type 0
Error = List ℕ

pub data Result {ℓ} (A : Type ℓ) : Type ℓ where
  ok : A → Result A
  err : Error → Result A
  panic : Result A

-- The property holds of the value, if the call returns one with a nil error; and the call does
-- not panic.
abbrev pub Ensures : {A : Type 0} → (A → Type 0) → Result A → Type 0
Ensures P (ok a) = P a
Ensures P (err e) = Unit
Ensures P panic = ⊥

abbrev pub Action : Type 0 → Type 0 → Type 0
Action σ A = σ → Result A × σ
