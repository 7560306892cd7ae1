-- ===== src/Rerank/Contract.antt =====
-- The session re-ranker keeps what the router asks of a re-ranker.
use recsys_pipeline.Common.{
  ℕ, sym, subst, List, [], ◌∷◌, map, All, Result, ok, err, panic, Ensures, some, elems,
}
use recsys_pipeline.Common.Text.{Text}
use recsys_pipeline.Common.Float.{Float}
use recsys_pipeline.Sort.{descending, slice_stable-All}
use recsys_pipeline.Tier.{Recommendation, Recs}
use recsys_pipeline.Tier.Limits.{AllGood, RerankerKeeps}
use recsys_pipeline.Keys.{session_events}
use recsys_pipeline.Rerank.{
  SessionFeatures, Sessions, Member, Weights, rerank, after_range, extract, after_extract,
  session_rerank, session_reranker,
}
use recsys_pipeline.Rerank.Scoring.{adjusted, rerank-slice_stable}

module _ {F : Type 0} ⦃f : Float F⦄ (Good : Text → Type 0) (db : Sessions F) (w : Weights F) where
  adjusted-All :
      (fs : SessionFeatures) (items : List (Recommendation F))
      → All (λ x. Good x.item_id) items
      → All (λ x. Good x.item_id) (map (adjusted w fs) items)
  adjusted-All fs [] h = tt
  adjusted-All fs (x ∷ xs) (g, h) = (g, adjusted-All fs xs h)

  rerank-All :
      (fs : SessionFeatures) (items : List (Recommendation F))
      → All (λ x. Good x.item_id) items
      → All (λ x. Good x.item_id) (rerank w items fs)
  rerank-All fs items h = subst (All (λ x. Good x.item_id)) (sym (rerank-slice_stable w fs items)) (
      slice_stable-All (descending (λ x. x.score)) (λ x. Good x.item_id) (map (adjusted w fs) items)
        (adjusted-All fs items h))

  -- The call of DragonflyDB does not panic.
  abbrev pub RangeRuns : Type 0
  RangeRuns = (key : Text) (a b : ℕ) → Ensures (λ _. Unit {0}) (db.rev_range key a b)

  after_range-Ensures :
      (r : Result (List (Member F)))
      → Ensures (λ _. Unit {0}) r
      → Ensures (λ _. Unit {0}) (after_range db r)
  unfolding after_range
  after_range-Ensures (ok x) h = tt
  after_range-Ensures (err e) h = tt
  after_range-Ensures panic h = h

  after_extract-Ensures :
      (items : Recs F) (r : Result SessionFeatures)
      → AllGood Good items
      → Ensures (λ _. Unit {0}) r
      → Ensures (AllGood Good) (after_extract w items r)
  unfolding after_extract
  after_extract-Ensures items (ok fs) g h = rerank-All fs (elems items) g
  after_extract-Ensures items (err e) g h = tt
  after_extract-Ensures items panic g h = h

  -- The session re-ranker brings in no item that it was not given, and panics only if the call of
  -- DragonflyDB does.
  pub session_reranker-Keeps :
      {σ : Type 0} → RangeRuns → RerankerKeeps {σ = σ} Good (some (session_reranker db w))
  unfolding session_reranker session_rerank extract
  session_reranker-Keeps runs user session items s g =
      after_extract-Ensures items _ g (after_range-Ensures _ (runs (session_events session) 0 49))
