-- ===== src/Sort/InPlace.antt =====
-- The in-place insertion sort: what has been sorted so far, read from its end, is a list into which
-- each round inserts.
use mathlib.Core.List.{Perm, perm_middle}
use mathlib.Core.List.Perm
use recsys_pipeline.Common.{
  ℕ, suc, ◌+◌, ◌≡◌, refl, sym, ap, subst, fun_ext, ◌∙◌, Bool, false, List, [], ◌∷◌, ◌++◌,
  append-nil, length, get_or, set, keep, All, arith, Bool-cases, inl, inr,
}
use recsys_pipeline.Sort.Defs.{insert, shift, rounds, sort_in_place}
use recsys_pipeline.Sort.Stable.{
  IsOrder, Ordered, tied, insert-perm, insert-All, insert-Ordered, keep-insert,
}

-- The reverse of the first list, and then the second.
abbrev pub onto : {A : Type 0} → List A → List A → List A
onto [] ys = ys
onto (x ∷ xs) ys = onto xs (x ∷ ys)

abbrev pub flip : {A : Type 0} → (A → A → Bool) → A → A → Bool
flip before x y = before y x

module _ {A : Type 0} where
  get_or-onto :
      (rp ys : List A) (y d : A) (k : ℕ) → get_or (onto rp ys) (length rp + k) d ≡ get_or ys k d
  get_or-onto [] ys y d k = ap (λ n. get_or ys n d) (omega arith)
  get_or-onto (x ∷ rp) ys y d k =
      ap (λ n. get_or (onto rp (x ∷ ys)) n d) (shift_index (length rp) k)
      ∙ get_or-onto rp (x ∷ ys) y d (suc k)
    where
      shift_index : (n k : ℕ) → suc n + k ≡ n + suc k
      shift_index n k = omega arith

  set-onto :
      (rp ys : List A) (v : A) (k : ℕ) → set (onto rp ys) (length rp + k) v ≡ onto rp (set ys k v)
  set-onto [] ys v k = ap (λ n. set ys n v) (omega arith)
  set-onto (x ∷ rp) ys v k =
      ap (λ n. set (onto rp (x ∷ ys)) n v) (shift_index (length rp) k)
      ∙ set-onto rp (x ∷ ys) v (suc k)
    where
      shift_index : (n k : ℕ) → suc n + k ≡ n + suc k
      shift_index n k = omega arith

plus_zero : (n : ℕ) → n ≡ n + 0
plus_zero n = omega arith

plus_one : (n : ℕ) → suc n ≡ n + 1
plus_one n = omega arith

module _ {A : Type 0} (before : A → A → Bool) where
  get_last_done : (rp ys : List A) (y d : A) → get_or (onto rp (y ∷ ys)) (length rp) d ≡ y
  get_last_done rp ys y d =
      ap (λ n. get_or (onto rp (y ∷ ys)) n d) (plus_zero (length rp))
      ∙ get_or-onto rp (y ∷ ys) y d 0

  set_next :
      (rp ys : List A) (y old v : A)
      → set (onto rp (y ∷ old ∷ ys)) (suc (length rp)) v ≡ onto rp (y ∷ v ∷ ys)
  set_next rp ys y old v =
      ap (λ n. set (onto rp (y ∷ old ∷ ys)) n v) (plus_one (length rp))
      ∙ set-onto rp (y ∷ old ∷ ys) v 1

  -- One run of the inner loop inserts the key into the entries before it.
  shift-insert :
      (key old : A) (rp rest : List A)
      → shift before key (length rp) (onto rp (old ∷ rest))
        ≡ onto (insert (flip before) key rp) rest
  unfolding shift insert
  shift-insert key old [] rest = refl
  shift-insert key old (y ∷ rp) rest = elim (Bool-cases (before key y)) [
    | inl e ↦
        rw (get_last_done rp (old ∷ rest) y key, e, set_next rp rest y old y)
          (shift-insert key y rp (y ∷ rest))
    | inr e ↦ rw (get_last_done rp (old ∷ rest) y key, e) (set_next rp rest y old key)
  ]

  unfoldable pub insert_all : List A → List A → List A
  insert_all [] rp = rp
  insert_all (z ∷ zs) rp = insert_all zs (insert (flip before) z rp)

  length-insert : (x : A) (ys : List A) → length (insert (flip before) x ys) ≡ suc (length ys)
  unfolding insert
  length-insert x [] = refl
  length-insert x (y ∷ ys) = ground (arith, length-insert x ys)

  rounds-insert_all :
      (zs rp : List A) (i : ℕ) (d : A)
      → i ≡ length rp
      → rounds before (length zs) i d (onto rp zs) ≡ onto (insert_all zs rp) []
  unfolding rounds insert_all
  rounds-insert_all [] rp i d e = refl
  rounds-insert_all (z ∷ zs) rp i d e =
      ap
        (λ n.
          rounds before (length zs) (suc i) d
            (shift before (get_or (onto rp (z ∷ zs)) n d) n (onto rp (z ∷ zs))))
        e
      ∙ ap
          (λ k. rounds before (length zs) (suc i) d (shift before k (length rp) (onto rp (z ∷ zs))))
          (get_last_done rp zs z d)
      ∙ ap (rounds before (length zs) (suc i) d) (shift-insert z z rp zs)
      ∙ rounds-insert_all zs (insert (flip before) z rp) (suc i) d
          (ap suc e ∙ sym (length-insert z rp))

  -- The whole sort, as insertions in the order of the input.
  pub sort_in_place-insert_all :
      (xs : List A) → sort_in_place before xs ≡ onto (insert_all xs []) []
  unfolding sort_in_place insert_all insert
  sort_in_place-insert_all [] = refl
  sort_in_place-insert_all (x ∷ xs) = rounds-insert_all xs (x ∷ []) 1 x refl

onto-perm : {A : Type 0} (xs ys : List A) → Perm (onto xs ys) (xs ++ ys)
onto-perm [] ys = Perm.refl ys
onto-perm (x ∷ xs) ys = Perm.trans (onto-perm xs (x ∷ ys)) (perm_middle xs ys)

onto-onto : {A : Type 0} (xs ys : List A) → onto (onto xs ys) [] ≡ onto ys xs
onto-onto [] ys = refl
onto-onto (x ∷ xs) ys = onto-onto xs (x ∷ ys)

keep-onto :
    {A : Type 0} (p : A → Bool) (xs ys : List A)
    → keep p (onto xs ys) ≡ onto (keep p xs) (keep p ys)
keep-onto p [] ys = refl
keep-onto p (x ∷ xs) ys = elim (Bool-cases (p x)) [
  | inl e ↦ rw e (keep-onto p xs (x ∷ ys) ∙ rw e)
  | inr e ↦ rw e (keep-onto p xs (x ∷ ys) ∙ rw e)
]

module _ {A : Type 0} (before : A → A → Bool) where
  insert_all-perm : (zs rp : List A) → Perm (insert_all before zs rp) (zs ++ rp)
  unfolding insert_all
  insert_all-perm [] rp = Perm.refl rp
  insert_all-perm (z ∷ zs) rp =
      Perm.trans (insert_all-perm zs (insert (flip before) z rp))
        (Perm.trans (Perm.append_left zs (insert-perm (flip before) z rp)) (perm_middle zs rp))

  -- The in-place sort returns a rearrangement of its input.
  pub sort_in_place-perm : (xs : List A) → Perm (sort_in_place before xs) xs
  sort_in_place-perm xs =
      subst (λ l. Perm l xs) (sym (sort_in_place-insert_all before xs))
        (Perm.trans (onto-perm (insert_all before xs []) []) (
          subst (λ l. Perm l xs) (sym (append-nil (insert_all before xs [])))
            (subst (λ l. Perm (insert_all before xs []) l) (append-nil xs)
              (insert_all-perm xs []))))

  onto-Ordered :
      (rp ys : List A)
      → Ordered (flip before) rp
      → Ordered before ys
      → All (λ x. All (λ y. before y x ≡ false) ys) rp
      → Ordered before (onto rp ys)
  onto-Ordered [] ys h g k = g
  onto-Ordered (x ∷ rp) ys (hx, h) g (kx, k) = onto-Ordered rp (x ∷ ys) h (kx, g) (both rp hx k)
    where
      both :
          (rp : List A)
          → All (λ z. before x z ≡ false) rp
          → All (λ x'. All (λ y. before y x' ≡ false) ys) rp
          → All (λ x'. All (λ y. before y x' ≡ false) (x ∷ ys)) rp
      both [] a b = tt
      both (z ∷ zs) (a, as') (b, bs) = ((a, b), both zs as' bs)

  All-nil : (rp : List A) → All (λ x. All (λ y. before y x ≡ false) []) rp
  All-nil [] = tt
  All-nil (x ∷ rp) = (tt, All-nil rp)

module _ {A : Type 0} (Fine : A → Type 0) (before : A → A → Bool) (o : IsOrder Fine before) where
  flipped : IsOrder Fine (flip before)
  flipped = record {
    asym = λ x y fx fy h. o.asym y x fy fx h;
    through = λ x y z fx fy fz h k. o.through z y x fz fy fx k h;
  }

  insert_all-Ordered :
      (zs rp : List A)
      → All Fine zs
      → All Fine rp
      → Ordered (flip before) rp
      → Ordered (flip before) (insert_all before zs rp)
  unfolding insert_all
  insert_all-Ordered [] rp fz fr h = h
  insert_all-Ordered (z ∷ zs) rp (f, fz) fr h =
      insert_all-Ordered zs (insert (flip before) z rp) fz (insert-All (flip before) Fine z rp f fr)
        (insert-Ordered Fine (flip before) flipped z rp f fr h)

  -- The in-place sort returns an ordered list.
  pub sort_in_place-Ordered : (xs : List A) → All Fine xs → Ordered before (sort_in_place before xs)
  sort_in_place-Ordered xs fine =
      subst (Ordered before) (sym (sort_in_place-insert_all before xs)) (
        onto-Ordered before (insert_all before xs []) [] (insert_all-Ordered xs [] fine tt tt) tt
          (All-nil before (insert_all before xs [])))

  insert_all-keep :
      (c : A) (zs rp : List A)
      → Fine c
      → All Fine zs
      → All Fine rp
      → keep (tied (flip before) c) (insert_all before zs rp)
        ≡ onto (keep (tied (flip before) c) zs) (keep (tied (flip before) c) rp)
  unfolding insert_all
  insert_all-keep c [] rp fc fz fr = refl
  insert_all-keep c (z ∷ zs) rp fc (f, fz) fr =
      insert_all-keep c zs (insert (flip before) z rp) fc fz
        (insert-All (flip before) Fine z rp f fr)
      ∙ ap (onto (keep (tied (flip before) c) zs))
          (keep-insert Fine (flip before) flipped c z rp fc f fr)
      ∙ elim (Bool-cases (tied (flip before) c z)) [ inl e ↦ rw e | inr e ↦ rw e ]

  tied-flip : (c y : A) → tied before c y ≡ tied (flip before) c y
  tied-flip c y = ground arith

  -- On entries that are strictly and weakly ordered, the in-place sort keeps tied entries in their
  -- order.
  pub sort_in_place-keep :
      (c : A) (xs : List A)
      → Fine c
      → All Fine xs
      → keep (tied before c) (sort_in_place before xs) ≡ keep (tied before c) xs
  sort_in_place-keep c xs fc fine =
      let t = tied (flip before) c in
      let same_ties : tied before c ≡ t = fun_ext (λ y. tied-flip c y) in
      rw (same_ties, sort_in_place-insert_all before xs)
        (keep-onto t (insert_all before xs []) []
          ∙ ap (λ l. onto l []) (insert_all-keep c xs [] fc fine tt)
          ∙ onto-onto (keep t xs) [])
