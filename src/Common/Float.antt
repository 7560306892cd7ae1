-- ===== src/Common/Float.antt =====
-- Floating-point numbers as an interface: the operations that the code uses, and the laws of
-- IEEE 754 comparison that its sorting relies on.
use mathlib.Core.Path.{◌≡◌}
use mathlib.Core.Logic.{◌⊎◌}
use mathlib.Core.Bool.{Bool, true, false}
use mathlib.Core.Option.{Option, none, some}
use Prim.Native.Nat.{ℕ, ◌+◌, ◌-◌, ◌/◌, ◌^◌}
use native.Mathlib.Omega.{arith}
use recsys_pipeline.Common.Tests.{ltb, if◌then◌else◌}
use recsys_pipeline.Common.Int.{ℤ, pos, negsuc, ltb_ℤ, ◌+ℤ◌, ◌*ℤ◌}

pub record Float (F : Type 0) : Type 0 where
  pub lt : F → F → Bool
  pub le : F → F → Bool
  pub add : F → F → F
  pub mul : F → F → F
  pub div : F → F → F
  -- The number nearest to a decimal: `decimal m k` is m / 10 ^ k.
  pub decimal : ℤ → ℕ → F
  pub is_nan : F → Bool

-- Comparisons are false at NaN, and order all other values totally.
pub record IsOrdered (F : Type 0) ⦃f : Float F⦄ : Type 0 where
  pub lt_irrefl : (x : F) → f.lt x x ≡ false
  pub lt_trans : (x y z : F) → f.lt x y ≡ true → f.lt y z ≡ true → f.lt x z ≡ true
  pub lt_split :
      (x y z : F) → f.is_nan y ≡ false → f.lt x z ≡ true → (f.lt x y ≡ true) ⊎ (f.lt y z ≡ true)
  pub lt_number : (x y : F) → f.lt x y ≡ true → (f.is_nan x ≡ false) × (f.is_nan y ≡ false)
  pub le_iff_not_lt :
      (x y : F)
      → f.is_nan x ≡ false
      → f.is_nan y ≡ false
      → ((f.le x y ≡ true) × (f.lt y x ≡ false)) ⊎ ((f.le x y ≡ false) × (f.lt y x ≡ true))
  pub le_number : (x y : F) → f.le x y ≡ true → (f.is_nan x ≡ false) × (f.is_nan y ≡ false)

module _ {F : Type 0} ⦃f : Float F⦄ (o : IsOrdered F) where
  pub lt→not-le : (x y : F) → f.lt y x ≡ true → f.le x y ≡ false
  lt→not-le x y h = let (ny, nx) = o.lt_number y x h in ground (arith, o.le_iff_not_lt x y nx ny)

  pub le→not-lt : (x y : F) → f.le x y ≡ true → f.lt y x ≡ false
  le→not-lt x y h = let (nx, ny) = o.le_number x y h in ground (arith, o.le_iff_not_lt x y nx ny)

  pub le_trans : (x y z : F) → f.le x y ≡ true → f.le y z ≡ true → f.le x z ≡ true
  le_trans x y z h k =
      let (nx, ny) = o.le_number x y h in
      let (_, nz) = o.le_number y z k in
      ground
        (arith, o.le_iff_not_lt x z nx nz, o.lt_split z y x ny, le→not-lt x y h, le→not-lt y z k)

-- The laws can be met: whole tenths, with `none` for NaN.
abbrev pub Tenths : Type 0
Tenths = Option ℤ

abbrev on_numbers : (ℤ → ℤ → Bool) → Tenths → Tenths → Bool
on_numbers f (some a) (some b) = f a b
on_numbers f _ _ = false

abbrev lift : (ℤ → ℤ → ℤ) → Tenths → Tenths → Tenths
lift f (some a) (some b) = some (f a b)
lift f _ _ = none

-- a / b, rounded towards zero.
abbrev shrink : ℤ → ℕ → ℤ
shrink (pos n) b = pos (n / b)
shrink (negsuc n) b = if ltb (n + 1) b then pos 0 else negsuc ((n + 1) / b - 1)

abbrev quotient : ℤ → ℤ → ℤ
quotient a (pos b) = shrink (a *ℤ pos 10) b
quotient a (negsuc b) = shrink (a *ℤ negsuc 9) (b + 1)

instance abbrev pub tenths : Float Tenths
tenths = record {
  lt = on_numbers ltb_ℤ;
  le = on_numbers λ a b. if ltb_ℤ b a then false else true;
  add = lift ◌+ℤ◌;
  mul = lift λ a b. shrink (a *ℤ b) 10;
  div = lift quotient;
  decimal = λ m k. some (shrink (m *ℤ pos 10) (10 ^ k));
  is_nan = λ x. elim x [ none ↦ true | some _ ↦ false ];
}

pub Tenths-IsOrdered : IsOrdered Tenths
Tenths-IsOrdered = ground arith
