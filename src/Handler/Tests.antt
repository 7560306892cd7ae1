-- ===== src/Handler/Tests.antt =====
-- The handlers with a recommender that returns as many items as it is asked for, and fails for one
-- user.
use recsys_pipeline.Common.{
  ℕ, zero, suc, ◌+◌, ◌≤◌, ◌≡◌, refl, Bool, true, false, some, List, [], ◌∷◌, length, replicate, All,
  Result, ok, err, Action, Runs, Ensures, arith, if◌then◌else◌,
}
use recsys_pipeline.Common.Int.{ℤ, pos, pos_part}
use recsys_pipeline.Common.Text.{Text, text, same}
use recsys_pipeline.Strconv.{atoi, parse_int}
use recsys_pipeline.Tier.{Recommendation, Recs, Level, tier1, level_text}
use recsys_pipeline.Handler.{
  Request, failure, recommended, observed, RecommendHandler, requests_total, request_duration,
  errors_total, new_recommend_handler, query_limit, handle_recommend,
}
use recsys_pipeline.Handler.Counts.{requests, errors, failed, is_valid, handle_recommend-counts}
use recsys_pipeline.Handler.Responses.{GoodRecs}

limits :
    (query_limit [] ≡ pos 20)
    × (query_limit (text "7") ≡ pos 7)
    × (query_limit (text "-7") ≡ pos 20)
    × (query_limit (text "seven") ≡ pos 20)
    × (query_limit (text "1000") ≡ pos 100)
unfolding query_limit atoi parse_int
limits = (refl, refl, refl, refl, refl)

abbrev items : ℕ → List (Recommendation ℕ)
items n = replicate n (record { item_id = text "i"; score = 1 })

abbrev recommender : Text → Text → ℤ → Action ℕ (Recs ℕ × Level)
recommender user session limit s = (
  if same user (text "bad") then err (text "down") else ok (some (items (pos_part limit)), tier1),
  suc s,
)

abbrev handler : RecommendHandler ℕ ℕ
unfolding new_recommend_handler
handler = new_recommend_handler recommender

abbrev get : Text → Text → Request
get user limit = record { method = text "GET"; user_id = user; session_id = []; limit = limit }

answers :
    (handle_recommend handler (get (text "u") (text "2")) (observed [] 0) ≡ (
      ok (recommended (items 2) (text "tier1_precomputed") [] []),
      observed
          (requests_total (text "tier1_precomputed")
            ∷ request_duration (text "tier1_precomputed")
            ∷ [])
          1,
    ))
    × (handle_recommend handler (get (text "bad") []) (observed [] 0) ≡ (
      ok (failure 500 (text "internal server error")),
      observed
          (requests_total (text "unknown")
            ∷ request_duration (text "unknown")
            ∷ errors_total (text "unknown")
            ∷ [])
          1,
    ))
    × (handle_recommend handler (get [] []) (observed [] 0)
        ≡ (ok (failure 400 (text "user_id is required")), observed [] 0))
unfolding new_recommend_handler handle_recommend query_limit atoi parse_int same level_text
answers = (refl, refl, refl)

items-All : (n : ℕ) → All (λ x. Unit {0}) (items n) × (length (items n) ≤ n)
items-All zero = (tt, omega arith)
items-All (suc n) = let (h, le) = items-All n in ((tt, h), omega arith)

-- What the recommender answers, by whether the user is the one it fails for.
abbrev answer : Bool → ℕ → Result (Recs ℕ × Level)
answer bad n = if bad then err (text "down") else ok (some (items n), tier1)

answer-Good : (bad : Bool) (n : ℕ) → Ensures (λ x. GoodRecs (λ _. Unit {0}) n x.0) (answer bad n)
answer-Good true n = tt
answer-Good false n = items-All n

answer-Safe : (bad : Bool) (n : ℕ) → Ensures (λ _. Unit {0}) (answer bad n)
answer-Safe true n = tt
answer-Safe false n = tt

recommender-Good :
    (user session : Text) (n : ℕ)
    → Runs (λ x. GoodRecs (λ _. Unit {0}) n x.0) (recommender user session (pos n)) 0
recommender-Good user session n = answer-Good (same user (text "bad")) n

handle_recommend-counts_example :
    let (response, s') = handle_recommend handler (get (text "bad") []) (observed [] 0) in
    (requests s'.metrics ≡ 0 + (if is_valid (get (text "bad") []) then 1 else 0))
    × (errors s'.metrics ≡ 0 + failed response)
unfolding new_recommend_handler
handle_recommend-counts_example =
    handle_recommend-counts handler (get (text "bad") []) (observed [] 0)
      λ user session. answer-Safe (same user (text "bad")) (pos_part (query_limit []))
