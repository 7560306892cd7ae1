-- ===== src/Sort/Defs.antt =====
-- The two sorts, over any type of entries.
use recsys_pipeline.Common.{ℕ, zero, suc, Bool, List, [], ◌∷◌, length, get_or, set, if◌then◌else◌}

module _ {A : Type 0} (before : A → A → Bool) where
  unfoldable pub insert : A → List A → List A
  insert x [] = x ∷ []
  insert x (y ∷ ys) = let rest = insert x ys in if before y x then y ∷ rest else x ∷ y ∷ ys

  -- `sort.SliceStable`
  unfoldable pub slice_stable : List A → List A
  unfolding insert
  slice_stable [] = []
  slice_stable (x ∷ xs) = insert x (slice_stable xs)

  -- The inner loop, with `j + 1` for the counter: entries that `key` goes before move up.
  unfoldable pub shift : A → ℕ → List A → List A
  shift key zero items = set items 0 key
  shift key (suc j) items =
      let rest = shift key j (set items (suc j) (get_or items j key)) in
      if before key (get_or items j key) then rest else set items (suc j) key

  -- The outer loop from index `i`, with the rounds that are left.
  unfoldable pub rounds : ℕ → ℕ → A → List A → List A
  unfolding shift
  rounds zero i dummy items = items
  rounds (suc n) i dummy items = rounds n (suc i) dummy (shift (get_or items i dummy) i items)

  unfoldable pub sort_in_place : List A → List A
  unfolding rounds
  sort_in_place [] = []
  sort_in_place (x ∷ xs) = rounds (length xs) 1 x (x ∷ xs)
