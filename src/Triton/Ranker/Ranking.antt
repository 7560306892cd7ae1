-- ===== src/Triton/Ranker/Ranking.antt =====
-- What the ranker returns.
use mathlib.Core.List.{Perm}
use recsys_pipeline.Common.{
  ℕ, ◌≡◌, refl, Bool, true, false, List, [], ◌∷◌, length, ok, arith, ◌⊎◌, ◌||◌,
}
use recsys_pipeline.Common.Text.{Text}
use recsys_pipeline.Common.Float.{Float}
use recsys_pipeline.Breaker.{Breaker}
use recsys_pipeline.Sort.{descending, Ordered}
use recsys_pipeline.Tier.{Recommendation}
use recsys_pipeline.Triton.Ranker.{with_scores}

-- Each item with the score at its place.
abbrev pub paired :
    {F G : Type 0} → (G → F) → List (Recommendation F) → List G → List (Recommendation F)
paired widen [] gs = []
paired widen (x ∷ xs) [] = []
paired widen (x ∷ xs) (g ∷ gs) =
    record { item_id = x.item_id; score = widen g } ∷ paired widen xs gs

module _ {F G : Type 0} (widen : G → F) where
  pub with_scores-paired :
      (xs : List (Recommendation F)) (gs : List G)
      → length gs ≡ length xs
      → with_scores widen xs gs ≡ ok (paired widen xs gs)
  unfolding with_scores
  with_scores-paired [] gs e = refl
  with_scores-paired (x ∷ xs) [] e = absurd (omega arith)
  with_scores-paired (x ∷ xs) (g ∷ gs) e = rw (with_scores-paired xs gs (omega arith))

module _ {σ F G : Type 0} ⦃f : Float F⦄ (widen : G → F) (zero32 : G) (clock : σ → ℕ) where
  abbrev pub any_nan : List (Recommendation F) → Bool
  any_nan [] = false
  any_nan (x ∷ xs) = f.is_nan x.score || any_nan xs

  -- What it is to be a ranking of the items: the items with some scores, one for each, and the
  -- highest score first unless one of them is NaN.
  pub record Ranked (items out : List (Recommendation F)) : Type 0 where
    pub scores : List G
    pub matched : length scores ≡ length items
    pub rearranged : Perm out (paired widen items scores)
    pub ordered :
        (any_nan (paired widen items scores) ≡ true) ⊎ Ordered (descending (λ x. x.score)) out
