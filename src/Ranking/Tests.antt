-- ===== src/Ranking/Tests.antt =====
-- The two clients on a server that scores every row 0.7.
use recsys_pipeline.Common.{ℕ, ◌/◌, length, replicate, ok}
use recsys_pipeline.Common.Int.{ℤ, pos}
use recsys_pipeline.Triton.{BatchItem, InferenceClient}

abbrev row : BatchItem ℤ → ℤ
row b = pos 7

abbrev constant : InferenceClient ℕ ℤ
constant = record {
  model_infer = λ timeout req s.
      (ok (record { scores = replicate (length req.user_embedding / 128) (pos 7) }), s);
}

abbrev item : BatchItem ℤ
item = record {
  user_embedding = replicate 128 (pos 1);
  item_embedding = replicate 128 (pos 2);
  context_features = replicate 32 (pos 3);
}
