-- ===== src/Triton/Ranker/Breaking.antt =====
-- What the ranker tells its breaker, and what an outage of the server makes of the two.
use recsys_pipeline.Common.{
  ℕ, ◌≡◌, refl, Bool, true, false, none, some, List, [], ◌∷◌, length, replicate, Result, ok, err,
  panic, elems, ◌⊎◌, inl, inr, if◌then◌else◌,
}
use recsys_pipeline.Common.Text.{Text}
use recsys_pipeline.Common.Int.{ℤ}
use recsys_pipeline.Common.Float.{Float}
use recsys_pipeline.Breaker.{Breaker, allow, step, Call, succeeds, fails}
use recsys_pipeline.Breaker.Closing.{after}
use recsys_pipeline.Tier.{Recommendation, Recs}
use recsys_pipeline.Triton.{BatchItem, InferenceClient, Client, score_batch}
use recsys_pipeline.Triton.Ranker.{Guarded, breaker_open, placeholder, report, call, admit, rank}

-- The placeholder batch for some items.
abbrev pub batch : {F G : Type 0} → G → Recs F → List (BatchItem G)
batch zero32 items = replicate (length (elems items)) (placeholder zero32)

abbrev pub client_of : {σ G : Type 0} → InferenceClient σ G → ℤ → Client σ G
client_of grpc timeout = record { grpc = some grpc; timeout = timeout }

abbrev pub guarded : {σ : Type 0} → Breaker → σ → Guarded σ
guarded b rest = record { breaker = b; rest = rest }

-- The calls of the breaker that an answer of the client leads to.
abbrev pub reports : {A : Type 0} → Result A → ℕ → List Call
reports (ok a) t = succeeds ∷ []
reports (err e) t = fails t ∷ []
reports panic t = []

module _ {σ F G : Type 0} ⦃f : Float F⦄ (widen : G → F) (zero32 : G) (clock : σ → ℕ) where
  report-breaker :
      (b : Breaker) (items : List (Recommendation F)) (r : Result (List G) × σ)
      → ((report widen zero32 clock b items r).1.breaker ≡ after (reports r.0 (clock r.1)) b)
        × ((report widen zero32 clock b items r).1.rest ≡ r.1)
  unfolding report step
  report-breaker b items (ok gs, t) = (refl, refl)
  report-breaker b items (err e, t) = (refl, refl)
  report-breaker b items (panic, t) = (refl, refl)

  -- If the breaker admits a request, the state of the world is that after one batch of placeholders
  -- was scored, and the breaker has heard of it once: of a success if the client returned scores,
  -- of a failure, at the time then, if it returned an error. A request that the breaker refuses is
  -- answered with its error and leaves the rest of the world as it is.
  pub rank-reports :
      (client : Client σ G) (user : Text) (items : Recs F) (s : Guarded σ)
      → let (b, admitted) = allow (clock s.rest) s.breaker in
        let (answer, rest) = score_batch client none (batch zero32 items) s.rest in
        let (result, s') = rank widen zero32 clock client user items s in
        ((admitted ≡ true) ⊎ (result ≡ err breaker_open))
        × (s'.breaker ≡ after (if admitted then reports answer (clock rest) else []) b)
        × (s'.rest ≡ (if admitted then rest else s.rest))
  unfolding rank admit call
  rank-reports client user items s = by_answer (allow (clock s.rest) s.breaker)
    where
      by_answer :
          (x : Breaker × Bool)
          → let (answer, rest) = score_batch client none (batch zero32 items) s.rest in
            let (result, s') = admit widen zero32 clock client items s.rest x in
            ((x.1 ≡ true) ⊎ (result ≡ err breaker_open))
            × (s'.breaker ≡ after (if x.1 then reports answer (clock rest) else []) x.0)
            × (s'.rest ≡ (if x.1 then rest else s.rest))
      by_answer (b, true) =
          let (told, left) =
            report-breaker b (elems items) (score_batch client none (batch zero32 items) s.rest) in
          (inl refl, told, left)
      by_answer (b, false) = (inr refl, refl, refl)
