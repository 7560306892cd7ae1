-- ===== src/Triton/Ranker.antt =====
-- services/recommendation-api/internal/triton/ranker.go: the ranker of tier 3, which calls the
-- inference client behind a circuit breaker. `widen` is the conversion of a 32-bit score to 64
-- bits, `zero32` is 0.0, and `clock` reads the time off the state of the world.
pub mod Breaking
pub mod Contract
pub mod Outage
pub mod Ranking
mod Tests
use recsys_pipeline.Common.{
  ℕ, Bool, true, false, Option, none, some, List, [], ◌∷◌, ◌++◌, map, length, replicate, Result, ok,
  err, panic, Error, Action, Slice, elems, if◌then◌else◌,
}
use recsys_pipeline.Common.Text.{Text, text}
use recsys_pipeline.Common.Float.{Float}
use recsys_pipeline.Breaker.{Breaker, allow, record_success, record_failure}
use recsys_pipeline.Sort.{sort_in_place, descending}
use recsys_pipeline.Tier.{Recommendation, Recs, Ranker}
use recsys_pipeline.Triton.{
  BatchItem, Client, score_batch, user_embedding_dim, item_embedding_dim, context_feature_dim,
}

-- The breaker, and the rest of the world.
pub record Guarded (σ : Type 0) : Type 0 where
  pub breaker : Breaker
  pub rest : σ

abbrev pub breaker_open : Error
breaker_open = text "triton circuit breaker is open"

abbrev pub rank_failed : Text
rank_failed = text "triton rank failed: "

-- The placeholder embeddings of one item.
abbrev placeholder : {G : Type 0} → G → BatchItem G
placeholder zero32 = record {
  user_embedding = replicate user_embedding_dim zero32;
  item_embedding = replicate item_embedding_dim zero32;
  context_features = replicate context_feature_dim zero32;
}

module _ {F G : Type 0} (widen : G → F) where
  and_result :
      Recommendation F → Result (List (Recommendation F)) → Result (List (Recommendation F))
  and_result x (ok xs) = ok (x ∷ xs)
  and_result x (err e) = err e
  and_result x panic = panic

  -- `scores[i]` for each item; an index past the scores panics.
  pub with_scores : List (Recommendation F) → List G → Result (List (Recommendation F))
  unfolding and_result
  with_scores [] gs = ok []
  with_scores (x ∷ xs) [] = panic
  with_scores (x ∷ xs) (g ∷ gs) =
      and_result (record { item_id = x.item_id; score = widen g }) (with_scores xs gs)

  sorted : ⦃f : Float F⦄ → Result (List (Recommendation F)) → Result (Recs F)
  sorted (ok xs) = ok (some (sort_in_place (descending (λ x. x.score)) xs))
  sorted (err e) = err e
  sorted panic = panic

module _ {σ F G : Type 0} ⦃f : Float F⦄ (widen : G → F) (zero32 : G) (clock : σ → ℕ) where
  -- What the ranker makes of the client's answer, which it reports to the breaker.
  report : Breaker → List (Recommendation F) → Result (List G) × σ → Result (Recs F) × Guarded σ
  unfolding with_scores sorted
  report b items (ok scores, t) = (
    sorted widen (with_scores widen items scores),
    record { breaker = record_success b; rest = t },
  )
  report b items (err e, t) =
      (err (rank_failed ++ e), record { breaker = record_failure (clock t) b; rest = t })
  report b items (panic, t) = (panic, record { breaker = b; rest = t })

  call : Client σ G → List (Recommendation F) → Breaker → σ → Result (Recs F) × Guarded σ
  unfolding report
  call client items b s =
      report b items (score_batch client none (replicate (length items) (placeholder zero32)) s)

  admit : Client σ G → Recs F → σ → Breaker × Bool → Result (Recs F) × Guarded σ
  unfolding call
  admit client items s (b, true) = call client (elems items) b s
  admit client items s (b, false) = (err breaker_open, record { breaker = b; rest = s })

  unfoldable pub rank : Client σ G → Text → Recs F → Action (Guarded σ) (Recs F)
  unfolding admit
  rank client user items s = admit client items s.rest (allow (clock s.rest) s.breaker)

  -- The ranker as the router sees it.
  unfoldable pub protected_ranker : Client σ G → Ranker (Guarded σ) F
  unfolding rank
  protected_ranker client = record { rank = rank client }
