-- ===== src/Sort/Kept.antt =====
-- The in-place sort of entries that share a property.
use recsys_pipeline.Common.{sym, subst, Bool, List, [], ◌∷◌, All}
use recsys_pipeline.Sort.Defs.{sort_in_place}
use recsys_pipeline.Sort.Stable.{insert-All}
use recsys_pipeline.Sort.InPlace.{onto, flip, insert_all, sort_in_place-insert_all}

module _ {A : Type 0} (P : A → Type 0) where
  onto-All : (xs ys : List A) → All P xs → All P ys → All P (onto xs ys)
  onto-All [] ys h k = k
  onto-All (x ∷ xs) ys (p, h) k = onto-All xs (x ∷ ys) h (p, k)

  insert_all-All :
      (before : A → A → Bool) (zs rp : List A)
      → All P zs
      → All P rp
      → All P (insert_all before zs rp)
  unfolding insert_all
  insert_all-All before [] rp h k = k
  insert_all-All before (z ∷ zs) rp (p, h) k =
      insert_all-All before zs _ h (insert-All (flip before) P z rp p k)

  pub sort_in_place-All :
      (before : A → A → Bool) (xs : List A) → All P xs → All P (sort_in_place before xs)
  sort_in_place-All before xs h =
      subst (All P) (sym (sort_in_place-insert_all before xs))
        (onto-All (insert_all before xs []) [] (insert_all-All before xs [] h tt) tt)
