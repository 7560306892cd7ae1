-- ===== src/Simulator/Seed/Categories.antt =====
-- The index of the categories: what it holds is the catalogue, and what the preferred categories
-- and the others hold is the index.
use mathlib.Core.List.{Perm, perm_append_comm}
use mathlib.Core.List.Perm
use recsys_pipeline.Common.{
  ◌≡◌, ◌≢◌, refl, sym, ap, subst, true, false, List, [], ◌∷◌, ◌++◌, append_assoc, append-nil, map,
  All, Distinct, arith, if◌then◌else◌, Bool-cases, inl, inr,
}
use recsys_pipeline.Common.Text.{Text, same, same→eq, eq→same}
use recsys_pipeline.Simulator.{Item}
use recsys_pipeline.Simulator.Seed.{
  Index, add_to, index_from, build_category_index, items_of, preferred, contains,
}

-- All entries, in the order of the index.
abbrev pub all_of : Index → List Item
all_of [] = []
all_of ((k, items) ∷ idx) = items ++ all_of idx

-- The entries under a key that is not preferred.
abbrev pub rest_of : List Text → Index → List Item
rest_of prefs [] = []
rest_of prefs ((k, items) ∷ idx) =
    if contains prefs k then rest_of prefs idx else items ++ rest_of prefs idx

abbrev pub names : Index → List Text
names idx = map (λ e. e.0) idx

-- A list taken out of the middle.
pub exchange : {A : Type 0} (xs ys zs : List A) → Perm (xs ++ (ys ++ zs)) (ys ++ (xs ++ zs))
exchange xs ys zs =
    subst (λ l. Perm l (ys ++ (xs ++ zs))) (append_assoc xs ys zs)
      (subst (λ l. Perm ((xs ++ ys) ++ zs) l) (append_assoc ys xs zs)
        (Perm.append_right zs (perm_append_comm xs ys)))

add_to-perm :
    (key : Text) (x : Item) (idx : Index) → Perm (all_of (add_to key x idx)) (x ∷ all_of idx)
unfolding add_to
add_to-perm key x [] = Perm.refl (x ∷ [])
add_to-perm key x ((k, items) ∷ idx) = elim (Bool-cases (same k key)) [
  | inl e ↦ rw e (
      subst (λ l. Perm l (x ∷ (items ++ all_of idx)))
        (sym (append_assoc items (x ∷ []) (all_of idx))) (exchange items (x ∷ []) (all_of idx)))
  | inr e ↦ rw e (
      Perm.trans (Perm.append_left items (add_to-perm key x idx))
        (exchange items (x ∷ []) (all_of idx)))
]

index_from-perm :
    (idx : Index) (xs : List Item) → Perm (all_of (index_from idx xs)) (xs ++ all_of idx)
unfolding index_from
index_from-perm idx [] = Perm.refl (all_of idx)
index_from-perm idx (x ∷ xs) = Perm.trans (index_from-perm (add_to x.category_id x idx) xs) (
    Perm.trans (Perm.append_left xs (add_to-perm x.category_id x idx))
      (exchange xs (x ∷ []) (all_of idx)))

-- The index holds the items, each as often as the catalogue.
pub build_category_index-perm : (xs : List Item) → Perm (all_of (build_category_index xs)) xs
unfolding build_category_index
build_category_index-perm xs =
    subst (Perm (all_of (index_from [] xs))) (append-nil xs) (index_from-perm [] xs)

add_to-absent :
    (key k : Text) (x : Item) (idx : Index)
    → k ≢ key
    → All (λ j. k ≢ j) (names idx)
    → All (λ j. k ≢ j) (names (add_to key x idx))
unfolding add_to
add_to-absent key k x [] ne h = (ne, tt)
add_to-absent key k x ((j, items) ∷ idx) ne h = elim (Bool-cases (same j key)) [
  | inl e ↦ rw e h
  | inr e ↦ rw e (h.0, add_to-absent key k x idx ne h.1)
]

add_to-Distinct :
    (key : Text) (x : Item) (idx : Index)
    → Distinct (names idx)
    → Distinct (names (add_to key x idx))
unfolding add_to
add_to-Distinct key x [] d = (tt, tt)
add_to-Distinct key x ((k, items) ∷ idx) d = elim (Bool-cases (same k key)) [
  | inl e ↦ rw e d
  | inr e ↦ rw e (
    add_to-absent key k x idx (λ eq. absurd (ground (arith, eq→same k key eq))) d.0,
    add_to-Distinct key x idx d.1,
  )
]

index_from-Distinct :
    (idx : Index) (xs : List Item) → Distinct (names idx) → Distinct (names (index_from idx xs))
unfolding index_from
index_from-Distinct idx [] d = d
index_from-Distinct idx (x ∷ xs) d =
    index_from-Distinct (add_to x.category_id x idx) xs (add_to-Distinct x.category_id x idx d)

-- No key twice, as in a map.
pub build_category_index-Distinct : (xs : List Item) → Distinct (names (build_category_index xs))
unfolding build_category_index
build_category_index-Distinct xs = index_from-Distinct [] xs tt

rest_of_absent :
    (p : Text) (prefs : List Text) (idx : Index)
    → All (λ j. p ≢ j) (names idx)
    → rest_of (p ∷ prefs) idx ≡ rest_of prefs idx
unfolding contains
rest_of_absent p prefs [] h = refl
rest_of_absent p prefs ((k, items) ∷ idx) h = elim (Bool-cases (same p k)) [
  | inl e ↦ absurd (h.0 (same→eq p k e))
  | inr e ↦ rw (e, rest_of_absent p prefs idx h.1) refl
]

not_contained : (p : Text) (prefs : List Text) → All (λ q. p ≢ q) prefs → contains prefs p ≡ false
unfolding contains
not_contained p [] h = refl
not_contained p (q ∷ prefs) h = elim (Bool-cases (same q p)) [
  | inl e ↦ absurd (h.0 (sym (same→eq q p e)))
  | inr e ↦ rw e (not_contained p prefs h.1)
]

not_same : (s t : Text) → same s t ≡ false → same t s ≡ false
not_same s t h = elim (Bool-cases (same t s)) [
  | inl e ↦ let e' : same s t ≡ true = eq→same s t (sym (same→eq t s e)) in cc
  | inr e ↦ e
]

-- One more preference takes its category out of the rest.
one_more :
    (p : Text) (prefs : List Text) (idx : Index)
    → contains prefs p ≡ false
    → Distinct (names idx)
    → Perm (items_of p idx ++ rest_of (p ∷ prefs) idx) (rest_of prefs idx)
unfolding items_of contains
one_more p prefs [] new d = Perm.refl []
one_more p prefs ((k, items) ∷ idx) new d = elim (Bool-cases (same k p)) [
  | inl e ↦
      let k_p : k ≡ p = same→eq k p e in
      let absent : All (λ j. p ≢ j) (names idx) =
        subst (λ t. All (λ j. t ≢ j) (names idx)) k_p d.0 in
      let now : same p k ≡ true = eq→same p k (sym k_p) in
      let new' : contains prefs k ≡ false = subst (λ t. contains prefs t ≡ false) (sym k_p) new in
      rw (e, now, new', rest_of_absent p prefs idx absent) (Perm.refl (items ++ rest_of prefs idx))
  | inr e ↦
      let other : same p k ≡ false = not_same k p e in
      elim (Bool-cases (contains prefs k)) [
        | inl c ↦ rw (e, other, c) (one_more p prefs idx new d.1)
        | inr c ↦
            rw (e, other, c)
              (Perm.trans (exchange (items_of p idx) items (rest_of (p ∷ prefs) idx))
                (Perm.append_left items (one_more p prefs idx new d.1)))
      ]
]

rest_none : (idx : Index) → rest_of [] idx ≡ all_of idx
unfolding contains
rest_none [] = refl
rest_none ((k, items) ∷ idx) = ap (λ l. items ++ l) (rest_none idx)

-- The preferred categories and the others hold what the index holds.
pub preferred-perm :
    (prefs : List Text) (idx : Index)
    → Distinct prefs
    → Distinct (names idx)
    → Perm (preferred idx prefs ++ rest_of prefs idx) (all_of idx)
unfolding preferred contains
preferred-perm [] idx dp d =
    subst (λ l. Perm l (all_of idx)) (sym (rest_none idx)) (Perm.refl (all_of idx))
preferred-perm (p ∷ prefs) idx dp d =
    subst (λ l. Perm l (all_of idx))
      (sym (append_assoc (items_of p idx) (preferred idx prefs) (rest_of (p ∷ prefs) idx)))
      (Perm.trans (exchange (items_of p idx) (preferred idx prefs) (rest_of (p ∷ prefs) idx)) (
        Perm.trans
          (Perm.append_left (preferred idx prefs)
            (one_more p prefs idx (not_contained p prefs dp.0) d))
          (preferred-perm prefs idx dp.1 d)))
