-- ===== src/Triton.antt =====
-- services/recommendation-api/internal/triton/client.go and grpc_client.go: the client of the
-- inference server. The server is a parameter, an action on a state `σ`; `G` is the type of its
-- 32-bit floats.
mod Checks
pub mod Batch
pub mod Ranker
mod Tests
use recsys_pipeline.Common.{
  ℕ, suc, Bool, true, false, not, Option, none, some, List, [], ◌∷◌, ◌++◌, length, Result, ok, err,
  panic, Error, Action, ◌>>=◌, pure, fail, of_result, attempt, ◌==◌, if◌then◌else◌,
}
use recsys_pipeline.Common.Int.{ℤ, pos, ltb_ℤ}
use recsys_pipeline.Common.Text.{Text, text}
use recsys_pipeline.Common.Decimal.{itoa}

abbrev pub model_name : Text
model_name = text "dcn_v2"

abbrev pub user_embedding_dim : ℕ
user_embedding_dim = 128

abbrev pub item_embedding_dim : ℕ
item_embedding_dim = 128

abbrev pub context_feature_dim : ℕ
context_feature_dim = 32

-- 80 milliseconds, in nanoseconds
abbrev pub default_timeout : ℤ
default_timeout = pos 80000000

pub record InferRequest (G : Type 0) : Type 0 where
  pub model : Text
  pub user_embedding : List G
  pub item_embedding : List G
  pub context_features : List G

pub record InferResponse (G : Type 0) : Type 0 where
  pub scores : List G

pub record BatchItem (G : Type 0) : Type 0 where
  pub user_embedding : List G
  pub item_embedding : List G
  pub context_features : List G

-- `GRPCInferenceClient`, with the timeout that its context carries.
pub record InferenceClient (σ G : Type 0) : Type 0 where
  pub model_infer : ℤ → InferRequest G → Action σ (InferResponse G)

pub record Client (σ G : Type 0) : Type 0 where
  pub grpc : Option (InferenceClient σ G)
  pub timeout : ℤ

unfoldable pub new_client : {σ G : Type 0} → Option (InferenceClient σ G) → ℤ → Client σ G
new_client grpc timeout = record {
  grpc = grpc;
  timeout = if ltb_ℤ (pos 0) timeout then timeout else default_timeout;
}

-- The error of a context: that of its parent, or that its time is already over.
unfoldable pub infer_ctx : Option Error → ℤ → Option Error
infer_ctx (some e) timeout = some e
infer_ctx none timeout =
    if ltb_ℤ (pos 0) timeout then none else some (text "context deadline exceeded")

expected : Text → ℕ → ℕ → Error
expected what dim got = what ++ (itoa dim ++ (text ", got " ++ itoa got))

unfoldable pub validate_dimensions : {G : Type 0} → BatchItem G → Option Error
unfolding expected
validate_dimensions b =
    if not (length b.user_embedding == user_embedding_dim)
    then some (
        expected (text "user embedding: expected dim ") user_embedding_dim
          (length b.user_embedding))
    else if not (length b.item_embedding == item_embedding_dim)
    then some (
        expected (text "item embedding: expected dim ") item_embedding_dim
          (length b.item_embedding))
    else if not (length b.context_features == context_feature_dim)
    then some (
        expected (text "context features: expected dim ") context_feature_dim
          (length b.context_features))
    else none

-- Go on unless there is an error, which is returned behind a message.
abbrev pub check : {σ A : Type 0} → Text → Option Error → Action σ A → Action σ A
check message none m = m
check message (some e) m = fail (message ++ e)

-- `fmt.Errorf("…: %w", err)` around the error of a call.
abbrev pub wrapped : {σ A : Type 0} → Text → Result A → Action σ A
wrapped message (ok a) = pure a
wrapped message (err e) = fail (message ++ e)
wrapped message panic = of_result panic

unfoldable pub first_score : {σ G : Type 0} → List G → Action σ G
first_score [] = fail (text "triton returned empty scores")
first_score (g ∷ gs) = pure g

not_configured : Error
not_configured = text "triton gRPC client is not configured"

-- The first error of a batch, with the index of its item.
at_item : ℕ → Option Error → Option Error → Option Error
at_item i none rest = rest
at_item i (some e) rest = some (text "batch item " ++ (itoa i ++ (text ": " ++ e)))

module _ {G : Type 0} where
  unfoldable pub request : BatchItem G → InferRequest G
  request b = record {
    model = model_name;
    user_embedding = b.user_embedding;
    item_embedding = b.item_embedding;
    context_features = b.context_features;
  }

  -- The loop that validates the items, from the one with index `i`.
  unfoldable pub validate_all : ℕ → List (BatchItem G) → Option Error
  unfolding at_item
  validate_all i [] = none
  validate_all i (b ∷ bs) = at_item i (validate_dimensions b) (validate_all (suc i) bs)

  unfoldable pub flat : (BatchItem G → List G) → List (BatchItem G) → List G
  flat field [] = []
  flat field (b ∷ bs) = field b ++ flat field bs

  unfoldable pub batch_request : List (BatchItem G) → InferRequest G
  unfolding flat
  batch_request bs = record {
    model = model_name;
    user_embedding = flat (λ b. b.user_embedding) bs;
    item_embedding = flat (λ b. b.item_embedding) bs;
    context_features = flat (λ b. b.context_features) bs;
  }

module _ {σ G : Type 0} where
  infer_one : InferenceClient σ G → ℤ → BatchItem G → Action σ G
  unfolding request first_score
  infer_one grpc timeout b = do
    answer ← attempt (grpc.model_infer timeout (request b))
    resp ← wrapped (text "triton inference failed: ") answer
    first_score resp.scores

  -- `Score`, with the parent context's error.
  score_with : Option (InferenceClient σ G) → ℤ → Option Error → BatchItem G → Action σ G
  unfolding not_configured infer_one infer_ctx
  score_with none timeout ctx b = fail not_configured
  score_with (some grpc) timeout ctx b = check [] (validate_dimensions b) (
      check (text "triton inference context error: ") (infer_ctx ctx timeout)
        (infer_one grpc timeout b))

  unfoldable pub score : Client σ G → Option Error → BatchItem G → Action σ G
  unfolding score_with
  score c ctx b = score_with c.grpc c.timeout ctx b

  -- One score for each item, or an error.
  unfoldable pub counted : ℕ → List G → Action σ (List G)
  counted n scores =
      if length scores == n
      then pure scores
      else fail (
          text "triton batch: expected "
          ++ (itoa n ++ (text " scores, got " ++ itoa (length scores))))

  unfoldable pub infer_batch : InferenceClient σ G → ℤ → List (BatchItem G) → Action σ (List G)
  unfolding batch_request counted
  infer_batch grpc timeout bs = do
    answer ← attempt (grpc.model_infer timeout (batch_request bs))
    resp ← wrapped (text "triton batch inference failed: ") answer
    counted (length bs) resp.scores

  unfoldable pub batch_with :
      Option (InferenceClient σ G) → ℤ → Option Error → List (BatchItem G) → Action σ (List G)
  unfolding not_configured infer_batch infer_ctx validate_all
  batch_with none timeout ctx bs = fail not_configured
  batch_with (some grpc) timeout ctx [] = pure []
  batch_with (some grpc) timeout ctx (b ∷ bs) = check [] (validate_all 0 (b ∷ bs)) (
      check (text "triton batch inference context error: ") (infer_ctx ctx timeout)
        (infer_batch grpc timeout (b ∷ bs)))

  unfoldable pub score_batch : Client σ G → Option Error → List (BatchItem G) → Action σ (List G)
  unfolding batch_with
  score_batch c ctx bs = batch_with c.grpc c.timeout ctx bs

  -- `NewGRPCClient`: a stub, every call of which fails.
  unfoldable pub new_grpc_client : Text → InferenceClient σ G
  new_grpc_client addr = record {
    model_infer = λ timeout req.
        fail (text "triton gRPC inference not yet implemented (target: " ++ (addr ++ text ")"));
  }
