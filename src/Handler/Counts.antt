-- ===== src/Handler/Counts.antt =====
-- What the recommendation handler counts.
use recsys_pipeline.Common.{
  ℕ, suc, ◌+◌, ◌≡◌, Bool, not, ◌&&◌, Option, List, [], ◌∷◌, ◌++◌, Result, ok, err, panic, Ensures,
  Safe, elems, non_nil, arith, if◌then◌else◌, Bool-cases, inl, inr, ◌==◌,
}
use recsys_pipeline.Common.Text.{Text, text, same}
use recsys_pipeline.Tier.{Recommendation, Recs, Level, level_text}
use recsys_pipeline.Experiment.{Experiment}
use recsys_pipeline.Handler.{
  Request, Response, failure, recommended, popular, health, Observed, RecommendHandler, Metric,
  requests_total, request_duration, errors_total, query_limit, assignment, envelope, respond,
  handle_recommend,
}

abbrev pub requests : List Metric → ℕ
requests [] = 0
requests (requests_total l ∷ ms) = suc (requests ms)
requests (request_duration l ∷ ms) = requests ms
requests (errors_total l ∷ ms) = requests ms

abbrev pub errors : List Metric → ℕ
errors [] = 0
errors (requests_total l ∷ ms) = errors ms
errors (request_duration l ∷ ms) = errors ms
errors (errors_total l ∷ ms) = suc (errors ms)

requests-append : (ms ns : List Metric) → requests (ms ++ ns) ≡ requests ms + requests ns
requests-append [] ns = omega arith
requests-append (requests_total l ∷ ms) ns = omega (arith, requests-append ms ns)
requests-append (request_duration l ∷ ms) ns = requests-append ms ns
requests-append (errors_total l ∷ ms) ns = requests-append ms ns

errors-append : (ms ns : List Metric) → errors (ms ++ ns) ≡ errors ms + errors ns
errors-append [] ns = omega arith
errors-append (requests_total l ∷ ms) ns = errors-append ms ns
errors-append (request_duration l ∷ ms) ns = errors-append ms ns
errors-append (errors_total l ∷ ms) ns = omega (arith, errors-append ms ns)

-- A GET request that names a user.
abbrev pub is_valid : Request → Bool
is_valid req = same req.method (text "GET") && not (same req.user_id [])

-- One for a response with the status 500.
abbrev pub failed : {F : Type 0} → Result (Response F) → ℕ
failed (ok (failure code message)) = if code == 500 then 1 else 0
failed (ok (recommended items a b c)) = 0
failed (ok (popular items a)) = 0
failed (ok (health a b c)) = 0
failed (err e) = 0
failed panic = 0

module _ {σ F : Type 0} where
  -- One more request, and one more error for a response with the status 500.
  pub record IsCounted (ms : List Metric) (out : Result (Response F) × Observed σ) : Type 0 where
    pub one_request : requests out.1.metrics ≡ requests ms + 1
    pub one_error : errors out.1.metrics ≡ errors ms + failed out.0

  envelope-IsCounted :
      (items : List (Recommendation F)) (level : Level) (ms : List Metric)
      (r : Result (Option (Experiment F)) × σ)
      → IsCounted ms (
          envelope items level
            (ms ++ requests_total (level_text level) ∷ request_duration (level_text level) ∷ [])
            r)
  unfolding envelope
  envelope-IsCounted items level ms (ok e, t) = record {
    one_request = requests-append ms _;
    one_error = errors-append ms _;
  }
  envelope-IsCounted items level ms (err x, t) = record {
    one_request = requests-append ms _;
    one_error = errors-append ms _;
  }
  envelope-IsCounted items level ms (panic, t) = record {
    one_request = requests-append ms _;
    one_error = errors-append ms _;
  }

  respond-IsCounted :
      (h : RecommendHandler σ F) (user : Text) (ms : List Metric) (r : Result (Recs F × Level) × σ)
      → Ensures (λ _. Unit {0}) r.0
      → IsCounted ms (respond h user ms r)
  unfolding respond
  respond-IsCounted h user ms (ok (items, level), t) safe =
      envelope-IsCounted (elems (non_nil items)) level ms (assignment h.experimenter user t)
  respond-IsCounted h user ms (err e, t) safe = record {
    one_request = requests-append ms _;
    one_error = errors-append ms _;
  }
  respond-IsCounted h user ms (panic, t) safe = absurd safe

  -- A valid request is counted once, and as an error exactly if the answer is 500; a request that
  -- is not valid is not counted at all. The recommender must not panic.
  pub handle_recommend-counts :
      (h : RecommendHandler σ F) (req : Request) (s : Observed σ)
      → ((user session : Text) → Safe (h.recommender user session (query_limit req.limit)) s.rest)
      → let (response, s') = handle_recommend h req s in
        (requests s'.metrics ≡ requests s.metrics + (if is_valid req then 1 else 0))
        × (errors s'.metrics ≡ errors s.metrics + failed response)
  unfolding handle_recommend
  handle_recommend-counts h req s safe = elim (Bool-cases (same req.method (text "GET"))) [
    | inr e ↦ rw e (omega arith, omega arith)
    | inl e ↦ rw e (elim (Bool-cases (same req.user_id [])) [
      | inl k ↦ rw k (omega arith, omega arith)
      | inr k ↦ rw k (
          let counted =
            respond-IsCounted h req.user_id s.metrics _ (safe req.user_id req.session_id) in
          (counted.one_request, counted.one_error))
    ])
  ]
