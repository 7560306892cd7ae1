-- ===== src/Rerank/Scoring.antt =====
-- The scorer: each item with its final score, the highest first, and ties as they came.
use mathlib.Core.List.{Perm}
use mathlib.Core.List.Perm
use recsys_pipeline.Common.{◌≡◌, refl, sym, ap, subst, ◌∙◌, List, [], ◌∷◌, map, keep, All, arith}
use recsys_pipeline.Common.Float.{Float, IsOrdered}
use recsys_pipeline.Sort.{
  insert, slice_stable, descending, Ordered, tied, Scored, descending-IsOrder, slice_stable-perm,
  slice_stable-Ordered, slice_stable-keep,
}
use recsys_pipeline.Tier.{Recommendation}
use recsys_pipeline.Rerank.{SessionFeatures, Weights, Entry, final_score, entries, results, rerank}

module _ {F : Type 0} ⦃f : Float F⦄ (w : Weights F) (fs : SessionFeatures) where
  -- The item with the score that the session gives it.
  abbrev pub adjusted : Recommendation F → Recommendation F
  adjusted x = record { item_id = x.item_id; score = final_score w fs x }

  results-insert :
      (e : Entry F) (es : List (Entry F))
      → results (insert (descending (λ e. e.final)) e es)
        ≡ insert
            (descending (λ x. x.score))
            (record { item_id = e.rec.item_id; score = e.final })
            (results es)
  unfolding results insert
  results-insert e [] = refl
  results-insert e (d ∷ es) = ground (arith, results-insert e es)

  -- The scorer sorts the adjusted items.
  pub rerank-slice_stable :
      (items : List (Recommendation F))
      → rerank w items fs ≡ slice_stable (descending (λ x. x.score)) (map adjusted items)
  unfolding rerank slice_stable
  rerank-slice_stable [] = refl
  rerank-slice_stable (x ∷ xs) =
      results-insert (record { rec = x; final = final_score w fs x })
        (slice_stable (descending (λ e. e.final)) (entries w fs xs))
      ∙ ap (insert (descending (λ x. x.score)) (adjusted x)) (rerank-slice_stable xs)

  ids-adjusted :
      (items : List (Recommendation F))
      → map (λ x. x.item_id) (map adjusted items) ≡ map (λ x. x.item_id) items
  ids-adjusted [] = refl
  ids-adjusted (x ∷ xs) = ap (◌∷◌ x.item_id) (ids-adjusted xs)

  -- Whatever the weights and the session, the same items come back, each as often as it was given.
  pub rerank-ids :
      (items : List (Recommendation F))
      → Perm (map (λ x. x.item_id) (rerank w items fs)) (map (λ x. x.item_id) items)
  rerank-ids items = subst (Perm (map (λ x. x.item_id) (rerank w items fs))) (ids-adjusted items) (
      Perm.map _ (
        subst (λ l. Perm l (map adjusted items)) (sym (rerank-slice_stable items))
          (slice_stable-perm (descending (λ x. x.score)) (map adjusted items))))

  -- If no final score is NaN, the scorer returns the items with their final scores, rearranged so
  -- that the highest comes first. Floats must compare as in IEEE 754.
  pub rerank-Ordered :
      IsOrdered F
      → (items : List (Recommendation F)) → All (Scored (λ x. x.score)) (map adjusted items)
      → Perm (rerank w items fs) (map adjusted items)
        × Ordered (descending (λ x. x.score)) (rerank w items fs)
  rerank-Ordered o items fine = rw (rerank-slice_stable items) (
    slice_stable-perm (descending (λ x. x.score)) (map adjusted items),
    slice_stable-Ordered (Scored (λ x. x.score)) (descending (λ x. x.score))
        (descending-IsOrder (λ x. x.score) o) (map adjusted items) fine,
  )

  -- Items with the same final score keep their order, if no final score is NaN: of the items that
  -- tie with `c`, the scorer returns the same list. Floats must compare as in IEEE 754.
  pub rerank-keep :
      IsOrdered F
      → (c : Recommendation F) (items : List (Recommendation F)) → Scored (λ x. x.score) c
      → All (Scored (λ x. x.score)) (map adjusted items)
      → keep (tied (descending (λ x. x.score)) c) (rerank w items fs)
        ≡ keep (tied (descending (λ x. x.score)) c) (map adjusted items)
  rerank-keep o c items fc fine =
      ap (keep (tied (descending (λ x. x.score)) c)) (rerank-slice_stable items)
      ∙ slice_stable-keep (Scored (λ x. x.score)) (descending (λ x. x.score))
          (descending-IsOrder (λ x. x.score) o) c (map adjusted items) fc fine
