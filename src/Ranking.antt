-- ===== src/Ranking.antt =====
-- services/ranking-service/client/triton_client.go: the client of the ranking service, a copy of that
-- of the recommendation API that scores a batch item by item. The types are those of the API's
-- client.
pub mod Agreement
mod Tests
use recsys_pipeline.Common.{
  ℕ, suc, Option, none, some, List, [], ◌∷◌, ◌++◌, Result, panic, Error, Action, ◌>>=◌, pure,
  of_result, attempt, if◌then◌else◌,
}
use recsys_pipeline.Common.Int.{ℤ, pos, ltb_ℤ}
use recsys_pipeline.Common.Text.{Text, text}
use recsys_pipeline.Common.Decimal.{itoa}
use recsys_pipeline.Triton.{
  BatchItem, InferenceClient, default_timeout, infer_ctx, validate_dimensions, check, wrapped,
  first_score, request,
}

pub record TritonClient (σ G : Type 0) : Type 0 where
  pub grpc : Option (InferenceClient σ G)
  pub timeout : ℤ

unfoldable pub new_triton_client :
    {σ G : Type 0} → Option (InferenceClient σ G) → ℤ → TritonClient σ G
new_triton_client grpc timeout = record {
  grpc = grpc;
  timeout = if ltb_ℤ (pos 0) timeout then timeout else default_timeout;
}

module _ {σ G : Type 0} where
  -- The call of a nil interface panics.
  pub infer : Option (InferenceClient σ G) → ℤ → BatchItem G → Action σ G
  infer none timeout b = of_result panic
  infer (some grpc) timeout b = do
    answer ← attempt (grpc.model_infer timeout (request b))
    resp ← wrapped (text "triton inference failed: ") answer
    first_score resp.scores

  unfoldable pub score_one : TritonClient σ G → Option Error → BatchItem G → Action σ G
  unfolding infer
  score_one c ctx b = check [] (validate_dimensions b) (
      check (text "triton inference context error: ") (infer_ctx ctx c.timeout)
        (infer c.grpc c.timeout b))

  -- The loop of `ScoreBatch`, from the item with index `i`.
  unfoldable pub score_each :
      ℕ → TritonClient σ G → Option Error → List (BatchItem G) → Action σ (List G)
  unfolding score_one
  score_each i c ctx [] = pure []
  score_each i c ctx (b ∷ bs) = do
    answer ← attempt (score_one c ctx b)
    g ← wrapped (text "batch item " ++ (itoa i ++ text ": ")) answer
    gs ← score_each (suc i) c ctx bs
    pure (g ∷ gs)
