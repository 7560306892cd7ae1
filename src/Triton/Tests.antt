-- ===== src/Triton/Tests.antt =====
-- The client with a server that counts its calls and returns a score of 0.7 for each item.
use recsys_pipeline.Common.{
  ℕ, suc, ◌/◌, ◌≡◌, refl, none, some, List, [], ◌∷◌, length, replicate, All, ok, err, Error, arith,
}
use recsys_pipeline.Common.Int.{ℤ, pos}
use recsys_pipeline.Triton.{
  InferRequest, InferenceClient, Client, BatchItem, new_client, batch_request, validate_all,
  score_batch,
}
use recsys_pipeline.Triton.Batch.{Fits, score_batch_misfit}

abbrev pub counting : InferenceClient ℕ ℤ
counting = record {
  model_infer = λ timeout req calls.
      (ok (record { scores = replicate (length req.user_embedding / 128) (pos 7) }), suc calls);
}

abbrev pub live : Client ℕ ℤ
unfolding new_client
live = new_client (some counting) (pos 0)

abbrev item : ℕ → BatchItem ℤ
item n = record {
  user_embedding = replicate 128 (pos 1);
  item_embedding = replicate n (pos 2);
  context_features = replicate 32 (pos 3);
}

abbrev two : List (BatchItem ℤ)
two = item 128 ∷ item 128 ∷ []

two-Fits : All Fits two
two-Fits = (
  record { user = refl; item = refl; context = refl },
  (record { user = refl; item = refl; context = refl }, tt),
)

two_scored : score_batch live none two 0 ≡ (ok (pos 7 ∷ pos 7 ∷ []), 1)
unfolding new_client score_batch validate_all recsys_pipeline.Triton.validate_dimensions
two_scored = refl

misfit : ¬ All Fits (item 128 ∷ item 127 ∷ [])
misfit (a, (b, c)) = not_128 b.item
  where
    not_128 : ¬ (length (item 127).item_embedding ≡ 128)
    not_128 = ground arith

score_batch_misfit_example :
    (e : Error) × (score_batch live none (item 128 ∷ item 127 ∷ []) 0 ≡ (err e, 0))
score_batch_misfit_example = score_batch_misfit live none (item 128 ∷ item 127 ∷ []) 0 misfit
