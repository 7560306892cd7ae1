-- ===== src/Common/Permuted.antt =====
-- What a permutation keeps: that no two entries are equal.
use mathlib.Core.List.{Perm, Permᴰ}
use mathlib.Core.List.Perm
use mathlib.Core.Logic.{∥∥₁_elim, ◌≢◌}
use mathlib.Core.HLevel.{¬_prop}
use mathlib.Core.Path.{◌≡◌, refl, ap, sym, subst, ◌∙◌}
use mathlib.Core.Option.{some}
use Prim.Native.Nat.{ℕ, zero, suc, ◌<◌}
use native.Mathlib.Omega.{arith}
use native.Mathlib.Nat.{ℕ_set}
use mathlib.Core.List.{List, [], ◌∷◌, ◌++◌}
use recsys_pipeline.Common.Lists.{All, Distinct, length, set, get_elem?, take, drop}

module _ {A : Type 0} where
  All-prop : (P : A → Type 0) → ((x : A) → IsProp (P x)) → (xs : List A) → IsProp (All P xs)
  All-prop P h [] = hlevel
  All-prop P h (x ∷ xs) = hlevel (h x, All-prop P h xs)

  Distinct-prop : (xs : List A) → IsProp (Distinct xs)
  Distinct-prop [] = hlevel
  Distinct-prop (x ∷ xs) = hlevel (All-prop (λ y. x ≢ y) (λ y. ¬_prop) xs, Distinct-prop xs)

  All-permᴰ : (P : A → Type 0) {xs ys : List A} → Permᴰ xs ys → All P xs → All P ys
  All-permᴰ P Permᴰ.nil h = tt
  All-permᴰ P (Permᴰ.cons e p) h = (subst P e h.0, All-permᴰ P p h.1)
  All-permᴰ P (Permᴰ.swap e₁ e₂) h = (subst P e₂ h.1.0, (subst P e₁ h.0, h.1.1))
  All-permᴰ P (Permᴰ.trans p q) h = All-permᴰ P q (All-permᴰ P p h)

  pub All-perm :
      (P : A → Type 0) (xs ys : List A)
      → ((x : A) → IsProp (P x))
      → Perm xs ys
      → All P xs
      → All P ys
  All-perm P xs ys h p a = ∥∥₁_elim p (All-prop P h ys) (λ d. All-permᴰ P d a)

  swapped : (a b : A) (l : List A) → Distinct (a ∷ b ∷ l) → Distinct (b ∷ a ∷ l)
  swapped a b l h = (((λ e. h.0.0 (sym e)), h.1.0), (h.0.1, h.1.1))

  Distinct-permᴰ : {xs ys : List A} → Permᴰ xs ys → Distinct xs → Distinct ys
  Distinct-permᴰ Permᴰ.nil h = tt
  Distinct-permᴰ (Permᴰ.cons {a = a} {b = b} {l₁ = xs} {l₂ = ys} e p) h =
      (subst (λ b. All (λ y. b ≢ y) ys) e (All-permᴰ (λ y. a ≢ y) p h.0), Distinct-permᴰ p h.1)
  Distinct-permᴰ (Permᴰ.swap {a = a} {b = b} {a' = a'} {l = l} e₁ e₂) h =
      subst (λ b'. Distinct (a' ∷ b' ∷ l)) e₁
        (subst (λ a'. Distinct (a' ∷ a ∷ l)) e₂ (swapped a b l h))
  Distinct-permᴰ (Permᴰ.trans p q) h = Distinct-permᴰ q (Distinct-permᴰ p h)

  pub Distinct-perm : (xs ys : List A) → Perm xs ys → Distinct xs → Distinct ys
  Distinct-perm xs ys p h = ∥∥₁_elim p (Distinct-prop ys) (λ d. Distinct-permᴰ d h)

  length-permᴰ : {xs ys : List A} → Permᴰ xs ys → length xs ≡ length ys
  length-permᴰ Permᴰ.nil = refl
  length-permᴰ (Permᴰ.cons e p) = ap suc (length-permᴰ p)
  length-permᴰ (Permᴰ.swap e₁ e₂) = refl
  length-permᴰ (Permᴰ.trans p q) = length-permᴰ p ∙ length-permᴰ q

  pub length-perm : (xs ys : List A) → Perm xs ys → length xs ≡ length ys
  length-perm xs ys p = ∥∥₁_elim p (ℕ_set _ _) (λ d. length-permᴰ d)

  All-append_left : (P : A → Type 0) (xs ys : List A) → All P (xs ++ ys) → All P xs
  All-append_left P [] ys h = tt
  All-append_left P (x ∷ xs) ys h = (h.0, All-append_left P xs ys h.1)

  pub Distinct-append_left : (xs ys : List A) → Distinct (xs ++ ys) → Distinct xs
  Distinct-append_left [] ys h = tt
  Distinct-append_left (x ∷ xs) ys h =
      (All-append_left (λ y. x ≢ y) xs ys h.0, Distinct-append_left xs ys h.1)

  -- A position that is written holds the new entry in place of the old one.
  pub set-perm :
      (xs : List A) (i : ℕ) (a b : A) → get_elem? xs i ≡ some a → Perm (a ∷ set xs i b) (b ∷ xs)
  set-perm [] i a b e = absurd (ground arith)
  set-perm (x ∷ xs) zero a b e =
      let same : x ≡ a = cc in subst (λ a. Perm (a ∷ b ∷ xs) (b ∷ x ∷ xs)) same (Perm.swap b x xs)
  set-perm (x ∷ xs) (suc i) a b e =
      Perm.trans (Perm.swap x a (set xs i b))
        (Perm.trans (Perm.cons x (set-perm xs i a b e)) (Perm.swap b x xs))

  pub get_elem?-set :
      (xs : List A) (i j : ℕ) (b : A) → get_elem? xs j ≡ some b → get_elem? (set xs i b) j ≡ some b
  get_elem?-set [] i j b e = e
  get_elem?-set (x ∷ xs) zero zero b e = refl
  get_elem?-set (x ∷ xs) (suc i) zero b e = e
  get_elem?-set (x ∷ xs) zero (suc j) b e = e
  get_elem?-set (x ∷ xs) (suc i) (suc j) b e = get_elem?-set xs i j b e

  pub get_elem?-lt : (xs : List A) (i : ℕ) → i < length xs → (a : A) × (get_elem? xs i ≡ some a)
  get_elem?-lt [] i h = absurd (omega arith)
  get_elem?-lt (x ∷ xs) zero h = (x, refl)
  get_elem?-lt (x ∷ xs) (suc i) h = get_elem?-lt xs i (omega arith)

  -- Two positions that are swapped, possibly the same.
  pub swap-perm :
      (xs : List A) (i j : ℕ) (a b : A)
      → get_elem? xs i ≡ some a
      → get_elem? xs j ≡ some b
      → Perm (set (set xs i b) j a) xs
  swap-perm xs i j a b ea eb =
      Perm.cons_inv {a = b} (
        Perm.trans (set-perm (set xs i b) j b a (get_elem?-set xs i j b eb)) (set-perm xs i a b ea))

pub take-drop {ℓ} : {A : Type ℓ} (n : ℕ) (xs : List A) → take n xs ++ drop n xs ≡ xs
take-drop zero xs = refl
take-drop (suc n) [] = refl
take-drop (suc n) (x ∷ xs) = ap (◌∷◌ x) (take-drop n xs)
