-- ===== src/Sort/Stable.antt =====
-- Insertion into an ordered list, and the stable sort: ordered, a rearrangement, and stable.
use mathlib.Core.List.{Perm}
use mathlib.Core.List.Perm
use recsys_pipeline.Common.{
  ◌≡◌, refl, ap, ◌∙◌, inl, inr, Bool, true, false, not, ◌&&◌, List, [], ◌∷◌, keep, All, arith,
  if◌then◌else◌, Bool-cases,
}
use recsys_pipeline.Sort.Defs.{insert, slice_stable}

-- The order, on the entries that are `Fine`, is a strict weak one.
pub record IsOrder {A : Type 0} (Fine : A → Type 0) (before : A → A → Bool) : Type 0 where
  pub asym : (x y : A) → Fine x → Fine y → before x y ≡ true → before y x ≡ false
  pub through :
      (x y z : A)
      → Fine x
      → Fine y
      → Fine z
      → before x y ≡ false
      → before y z ≡ false
      → before x z ≡ false

-- No entry must come before an earlier one.
abbrev pub Ordered : {A : Type 0} → (A → A → Bool) → List A → Type 0
Ordered before [] = Unit
Ordered before (x ∷ xs) = All (λ y. before y x ≡ false) xs × Ordered before xs

-- The entries that may change places with `c`.
abbrev pub tied : {A : Type 0} → (A → A → Bool) → A → A → Bool
tied before c y = not (before c y) && not (before y c)

module _ {A : Type 0} (before : A → A → Bool) where
  pub insert-perm : (x : A) (ys : List A) → Perm (insert before x ys) (x ∷ ys)
  unfolding insert
  insert-perm x [] = Perm.refl (x ∷ [])
  insert-perm x (y ∷ ys) = elim (Bool-cases (before y x)) [
    | inl e ↦ rw e (Perm.trans (Perm.cons y (insert-perm x ys)) (Perm.swap x y ys))
    | inr e ↦ rw e (Perm.refl (x ∷ y ∷ ys))
  ]

  pub slice_stable-perm : (xs : List A) → Perm (slice_stable before xs) xs
  unfolding slice_stable
  slice_stable-perm [] = Perm.refl []
  slice_stable-perm (x ∷ xs) =
      Perm.trans (insert-perm x (slice_stable before xs)) (Perm.cons x (slice_stable-perm xs))

  pub insert-All :
      (P : A → Type 0) (x : A) (ys : List A) → P x → All P ys → All P (insert before x ys)
  unfolding insert
  insert-All P x [] p h = (p, tt)
  insert-All P x (y ∷ ys) p (q, h) = elim (Bool-cases (before y x)) [
    | inl e ↦ rw e (q, insert-All P x ys p h)
    | inr e ↦ rw e (p, (q, h))
  ]

  pub slice_stable-All : (P : A → Type 0) (xs : List A) → All P xs → All P (slice_stable before xs)
  unfolding slice_stable
  slice_stable-All P [] h = tt
  slice_stable-All P (x ∷ xs) (p, h) =
      insert-All P x (slice_stable before xs) p (slice_stable-All P xs h)

module _ {A : Type 0} (Fine : A → Type 0) (before : A → A → Bool) (o : IsOrder Fine before) where
  behind :
      (x y : A) (ys : List A)
      → Fine x
      → Fine y
      → before y x ≡ false
      → All Fine ys
      → All (λ z. before z y ≡ false) ys
      → All (λ z. before z x ≡ false) ys
  behind x y [] fx fy e fine h = tt
  behind x y (z ∷ ys) fx fy e (fz, fine) (g, h) =
      (o.through z y x fz fy fx g e, behind x y ys fx fy e fine h)

  pub insert-Ordered :
      (x : A) (ys : List A)
      → Fine x
      → All Fine ys
      → Ordered before ys
      → Ordered before (insert before x ys)
  unfolding insert
  insert-Ordered x [] fx fine h = (tt, tt)
  insert-Ordered x (y ∷ ys) fx (fy, fine) (g, h) = elim (Bool-cases (before y x)) [
    | inl e ↦ rw e (
      insert-All before (λ z. before z y ≡ false) x ys (o.asym y x fy fx e) g,
      insert-Ordered x ys fx fine h,
    )
    | inr e ↦ rw e ((e, behind x y ys fx fy e fine g), (g, h))
  ]

  -- A stable sort returns an ordered list.
  pub slice_stable-Ordered : (xs : List A) → All Fine xs → Ordered before (slice_stable before xs)
  unfolding slice_stable
  slice_stable-Ordered [] fine = tt
  slice_stable-Ordered (x ∷ xs) (fx, fine) =
      insert-Ordered x (slice_stable before xs) fx (slice_stable-All before Fine xs fine)
        (slice_stable-Ordered xs fine)

  -- An entry passes only entries that are not tied with it.
  pub keep-insert :
      (c x : A) (ys : List A)
      → Fine c
      → Fine x
      → All Fine ys
      → keep (tied before c) (insert before x ys) ≡ keep (tied before c) (x ∷ ys)
  unfolding insert
  keep-insert c x [] fc fx fine = refl
  keep-insert c x (y ∷ ys) fc fx (fy, fine) =
      ground (arith, keep-insert c x ys fc fx fine, o.through y c x fy fc fx)

  -- Tied entries keep their order.
  pub slice_stable-keep :
      (c : A) (xs : List A)
      → Fine c
      → All Fine xs
      → keep (tied before c) (slice_stable before xs) ≡ keep (tied before c) xs
  unfolding slice_stable
  slice_stable-keep c [] fc fine = refl
  slice_stable-keep c (x ∷ xs) fc (fx, fine) =
      keep-insert c x (slice_stable before xs) fc fx (slice_stable-All before Fine xs fine)
      ∙ ap (λ l. if tied before c x then x ∷ l else l) (slice_stable-keep c xs fc fine)
