-- ===== src/Handler.antt =====
-- services/recommendation-api/internal/handler/{recommend,popular}_handler.go: the HTTP handlers of
-- the recommendation API, and the Prometheus counters that they write
-- (services/recommendation-api/internal/metrics/metrics.go), as a list of what was recorded.
pub mod Limit
pub mod Responses
pub mod Reports
pub mod Counts
mod Tests
use recsys_pipeline.Common.{
  ℕ, Bool, true, false, not, Option, none, some, List, [], ◌∷◌, ◌++◌, Result, ok, err, panic,
  Action, Slice, elems, non_nil, if◌then◌else◌,
}
use recsys_pipeline.Common.Int.{ℤ, pos, ltb_ℤ}
use recsys_pipeline.Common.Text.{Text, text, same}
use recsys_pipeline.Strconv.{atoi}
use recsys_pipeline.Tier.{Recommendation, Recs, Level, level_text}
use recsys_pipeline.Experiment.{Experiment}

abbrev pub default_limit : ℤ
default_limit = pos 20

abbrev pub max_limit : ℤ
max_limit = pos 100

-- What a handler reads of a request; a query parameter that is not given is empty.
pub record Request : Type 0 where
  pub method : Text
  pub user_id : Text
  pub session_id : Text
  pub limit : Text

-- A status other than 200 with its message, the two JSON envelopes, and the health report.
pub data Response (F : Type 0) : Type 0 where
  failure : ℕ → Text → Response F
  recommended :
      (items : List (Recommendation F)) (tier experiment_id model_version : Text) → Response F
  popular : (items : List (Recommendation F)) (tier : Text) → Response F
  health : ℕ → (status dragonfly : Text) → Response F

-- An increment of `RequestsTotal`, an observation of `RequestDuration`, or an increment of
-- `ErrorsTotal`, under the label of a tier.
pub data Metric : Type 0 where
  requests_total : Text → Metric
  request_duration : Text → Metric
  errors_total : Text → Metric

pub record Observed (σ : Type 0) : Type 0 where
  pub metrics : List Metric
  pub rest : σ

pub record RecommendHandler (σ F : Type 0) : Type 0 where
  pub recommender : Text → Text → ℤ → Action σ (Recs F × Level)
  pub experimenter : Option (Text → Action σ (Option (Experiment F)))
  pub pinger : Option (Action σ (Unit {0}))

module _ {σ F : Type 0} where
  unfoldable pub new_recommend_handler :
      (Text → Text → ℤ → Action σ (Recs F × Level)) → RecommendHandler σ F
  new_recommend_handler r = record { recommender = r; experimenter = none; pinger = none }

  unfoldable pub with_experiments :
      (Text → Action σ (Option (Experiment F))) → RecommendHandler σ F → RecommendHandler σ F
  with_experiments e h = record h { experimenter = some e }

  unfoldable pub with_pinger : Action σ (Unit {0}) → RecommendHandler σ F → RecommendHandler σ F
  with_pinger p h = record h { pinger = some p }

-- A limit that is given and positive, or the default.
given_limit : Option ℤ → ℤ
given_limit none = default_limit
given_limit (some n) = if ltb_ℤ (pos 0) n then n else default_limit

requested : Text → ℤ
unfolding given_limit
requested [] = default_limit
requested (c ∷ s) = given_limit (atoi (c ∷ s))

unfoldable pub query_limit : Text → ℤ
unfolding requested
query_limit s = if ltb_ℤ max_limit (requested s) then max_limit else requested s

abbrev pub id_of : {F : Type 0} → Option (Experiment F) → Text
id_of none = []
id_of (some e) = e.id

abbrev pub model_of : {F : Type 0} → Option (Experiment F) → Text
model_of none = []
model_of (some e) = e.model_version

abbrev pub observed : {σ : Type 0} → List Metric → σ → Observed σ
observed ms t = record { metrics = ms; rest = t }

-- The label of an error, with which the router returns no level.
abbrev pub unknown : Text
unknown = text "unknown"

abbrev pub internal_error : {F : Type 0} → Response F
internal_error = failure 500 (text "internal server error")

module _ {σ F : Type 0} where
  -- An error of the experimenter is only logged.
  unassigned : Result (Option (Experiment F)) × σ → Result (Option (Experiment F)) × σ
  unassigned (ok e, t) = (ok e, t)
  unassigned (err x, t) = (ok none, t)
  unassigned (panic, t) = (panic, t)

  assignment :
      Option (Text → Action σ (Option (Experiment F))) → Text → Action σ (Option (Experiment F))
  unfolding unassigned
  assignment none user t = (ok none, t)
  assignment (some get) user t = unassigned (get user t)

  envelope :
      List (Recommendation F)
      → Level
      → List Metric
      → Result (Option (Experiment F)) × σ
      → Result (Response F) × Observed σ
  envelope items level ms (ok e, t) =
      (ok (recommended items (level_text level) (id_of e) (model_of e)), observed ms t)
  envelope items level ms (err x, t) = (err x, observed ms t)
  envelope items level ms (panic, t) = (panic, observed ms t)

  -- What the handler makes of the recommender's answer.
  respond :
      RecommendHandler σ F
      → Text
      → List Metric
      → Result (Recs F × Level) × σ
      → Result (Response F) × Observed σ
  unfolding assignment envelope
  respond h user ms (ok (items, level), t) =
      envelope (elems (non_nil items)) level
        (ms ++ requests_total (level_text level) ∷ request_duration (level_text level) ∷ [])
        (assignment h.experimenter user t)
  respond h user ms (err e, t) = (
    ok internal_error,
    observed (ms ++ requests_total unknown ∷ request_duration unknown ∷ errors_total unknown ∷ [])
        t,
  )
  respond h user ms (panic, t) = (panic, observed ms t)

  unfoldable pub handle_recommend :
      RecommendHandler σ F → Request → Action (Observed σ) (Response F)
  unfolding respond query_limit
  handle_recommend h req s =
      if not (same req.method (text "GET"))
      then (ok (failure 405 (text "method not allowed")), s)
      else if same req.user_id []
      then (ok (failure 400 (text "user_id is required")), s)
      else respond h req.user_id s.metrics
          (h.recommender req.user_id req.session_id (query_limit req.limit) s.rest)

  ping_report : Result (Unit {0}) × σ → Result (Response F) × σ
  ping_report (ok x, t) = (ok (health 200 (text "ok") (text "connected")), t)
  ping_report (err e, t) = (ok (health 503 (text "unhealthy") (text "disconnected")), t)
  ping_report (panic, t) = (panic, t)

  health_with : Option (Action σ (Unit {0})) → Action σ (Response F)
  unfolding ping_report
  health_with none t = (ok (health 200 (text "ok") (text "connected")), t)
  health_with (some ping) t = ping_report (ping t)

  unfoldable pub handle_health : RecommendHandler σ F → Action σ (Response F)
  unfolding health_with
  handle_health h = health_with h.pinger

  popular_items : Result (Recs F) × σ → Result (Response F) × σ
  popular_items (ok items, t) = (ok (popular (elems (non_nil items)) (text "tier0_popular")), t)
  popular_items (err e, t) = (ok internal_error, t)
  popular_items (panic, t) = (panic, t)

  -- The handler of popular items, with the store's method. The headers are constants.
  unfoldable pub handle_popular : (ℤ → Action σ (Recs F)) → Request → Action σ (Response F)
  unfolding popular_items query_limit
  handle_popular get req s =
      if not (same req.method (text "GET"))
      then (ok (failure 405 (text "method not allowed")), s)
      else popular_items (get (query_limit req.limit) s)
