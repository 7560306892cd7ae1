-- ===== src/Triton/Ranker/Tests.antt =====
-- The ranker with a server that answers, and with the stub.
use recsys_pipeline.Common.{
  ℕ, suc, ◌/◌, ◌≡◌, refl, true, none, some, List, [], ◌∷◌, length, replicate, ok, err, arith, ◌⊎◌,
  if◌then◌else◌,
}
use recsys_pipeline.Common.Int.{ℤ, pos}
use recsys_pipeline.Common.Text.{Text, text}
use recsys_pipeline.Common.Float.{Tenths, tenths}
use recsys_pipeline.Breaker.{Breaker, new, opened, allow}
use recsys_pipeline.Breaker.Closing.{IsClosed, after}
use recsys_pipeline.Tier.{Recommendation, Recs}
use recsys_pipeline.Triton.{InferenceClient, Client, new_grpc_client, score_batch}
use recsys_pipeline.Triton.Ranker.{Guarded, breaker_open, rank}
use recsys_pipeline.Triton.Ranker.Breaking.{batch, reports, guarded, client_of, rank-reports}
use recsys_pipeline.Triton.Ranker.Outage.{Query, ranks, AllErr, stub-IsDown, outage_opens}

abbrev counting : InferenceClient ℕ ℤ
counting = record {
  model_infer = λ timeout req calls.
      (ok (record { scores = replicate (length req.user_embedding / 128) (pos 7) }), suc calls);
}

abbrev live : Client ℕ ℤ
live = client_of counting (pos 80000000)

abbrev stub : Client ℕ ℤ
stub = client_of (new_grpc_client (text "localhost:8001")) (pos 80000000)

abbrev fresh : Guarded ℕ
unfolding new
fresh = guarded (new (text "triton") 2 30) 0

abbrev tripped : Breaker
unfolding new
tripped = record (new (text "triton") 2 30) { state = opened; fail_count = 2; last_tripped = 100 }

abbrev clock : ℕ → ℕ
clock n = n

abbrev item : Text → Recommendation Tenths
item id = record { item_id = id; score = some (pos 1) }

abbrev two : Recs Tenths
two = some (item (text "i_1") ∷ item (text "i_2") ∷ [])

rank-reports_example :
    let (b, admitted) = allow 0 fresh.breaker in
    let (answer, rest) = score_batch live none (batch (pos 0) two) 0 in
    let (result, s') = rank some (pos 0) clock live (text "u") two fresh in
    ((admitted ≡ true) ⊎ (result ≡ err breaker_open))
    × (s'.breaker ≡ after (if admitted then reports answer (clock rest) else []) b)
    × (s'.rest ≡ (if admitted then rest else 0))
unfolding new
rank-reports_example = rank-reports some (pos 0) clock live (text "u") two fresh

abbrev queries : List (Query Tenths)
queries =
    (text "u", item (text "i_1"), []) ∷ (text "v", item (text "i_2"), item (text "i_3") ∷ []) ∷ []

fresh-IsClosed : IsClosed 0 fresh.breaker
unfolding new
fresh-IsClosed = record { is_closed = refl; counted = refl; positive = omega arith }

outage_opens_example :
    AllErr some (pos 0) clock (ranks some (pos 0) clock stub queries fresh).0
    × ((ranks some (pos 0) clock stub queries fresh).1.breaker.state ≡ opened)
unfolding new
outage_opens_example =
    outage_opens some (pos 0) clock stub queries fresh (stub-IsDown (text "localhost:8001"))
      fresh-IsClosed (omega arith) refl
