-- ===== src/Ranking/Agreement.antt =====
-- The two clients on a server that scores each row of a request by itself.
use recsys_pipeline.Common.{◌≡◌, some, List, map, All, ok}
use recsys_pipeline.Common.Int.{ℤ}
use recsys_pipeline.Triton.{BatchItem, InferenceClient, Client, batch_request}
use recsys_pipeline.Triton.Batch.{Fits}
use recsys_pipeline.Ranking.{TritonClient}

-- The two clients, with one connection and one timeout.
abbrev pub each : {σ G : Type 0} → InferenceClient σ G → ℤ → TritonClient σ G
each grpc timeout = record { grpc = some grpc; timeout = timeout }

abbrev pub batched : {σ G : Type 0} → InferenceClient σ G → ℤ → Client σ G
batched grpc timeout = record { grpc = some grpc; timeout = timeout }

module _ {σ G : Type 0} (grpc : InferenceClient σ G) (timeout : ℤ) (row : BatchItem G → G) where
  -- The server's answer to a batch is the list of the scores of its rows, and leaves the world as it
  -- is.
  abbrev pub IsRowwise : Type 0
  IsRowwise =
      (bs : List (BatchItem G)) (s : σ)
      → All Fits bs
      → grpc.model_infer timeout (batch_request bs) s ≡ (ok (record { scores = map row bs }), s)
