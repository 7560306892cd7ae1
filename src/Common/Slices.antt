-- ===== src/Common/Slices.antt =====
-- Go slices: `none` is nil, which has no elements; a slice expression can panic.
use Prim.Native.Nat.{ℕ, ◌≤◌}
use mathlib.Core.Logic.{inl, inr}
use mathlib.Core.List.{List, []}
use mathlib.Core.Option.{Option, none, some}
use native.Mathlib.Omega.{arith}
use recsys_pipeline.Common.Tests.{if◌then◌else◌, Bool-cases}
use recsys_pipeline.Common.Lists.{length, take, length-take, All, All-take}
use recsys_pipeline.Common.Results.{Result, ok, panic, Ensures}
use recsys_pipeline.Common.Int.{ℤ, pos, negsuc, ltb_ℤ}

abbrev pub Slice {ℓ} : Type ℓ → Type ℓ
Slice A = Option (List A)

module _ {ℓ} {A : Type ℓ} where
  abbrev pub elems : Slice A → List A
  elems none = []
  elems (some xs) = xs

  -- `if s == nil { s = []A{} }`
  abbrev pub non_nil : Slice A → Slice A
  non_nil none = some []
  non_nil (some xs) = some xs

  -- `xs[:limit]` for a limit below the length
  slice_to : ℤ → List A → Result (Slice A)
  slice_to (pos n) xs = ok (some (take n xs))
  slice_to (negsuc n) xs = panic

  -- `if len(s) > limit { s = s[:limit] }`
  unfoldable pub truncate : ℤ → Slice A → Result (Slice A)
  unfolding slice_to
  truncate limit s = if ltb_ℤ limit (pos (length (elems s))) then slice_to limit (elems s) else ok s

-- No panic, and no more than the limit, from a limit that is not negative.
pub truncate-Ensures :
    {A : Type 0} (P : A → Type 0) (n : ℕ) (s : Slice A)
    → All P (elems s)
    → Ensures (λ t. All P (elems t) × (length (elems t) ≤ n)) (truncate (pos n) s)
unfolding truncate
truncate-Ensures P n s h = elim (Bool-cases (ltb_ℤ (pos n) (pos (length (elems s))))) [
  | inl e ↦ rw e (All-take P n (elems s) h, omega (arith, length-take n (elems s)))
  | inr e ↦ rw e (h, ground arith)
]
