-- ===== src/Events/Server.antt =====
-- services/event-collector/cmd/server/main.go with the constructor of internal/producer/redpanda.go:
-- the event collector put together, and the requests that it serves. The Kafka client is a
-- parameter; the two HTTP servers and their shutdown are not modelled.
mod Tests
use recsys_pipeline.Common.{
  ℕ, ◌≡◌, refl, sym, ap, ◌∙◌, Bool, true, false, List, [], ◌∷◌, ◌++◌, append_assoc, append-nil,
  Result, ok, err, panic, Error, Action, All, Ensures, ◌==◌, if◌then◌else◌, Bool-cases, inl, inr,
}
use recsys_pipeline.Common.Text.{Text, text, same}
use recsys_pipeline.Events.{Event, EventRequest, Response, Redpanda, Record, handle_event}
use recsys_pipeline.Events.Intake.{intake, total, handle_event-IsTaken}

unfoldable pub get_env : Text → Text → Text
get_env v fallback = if same v [] then fallback else v

-- The pieces between the separators: `strings.Split` with a separator of one byte.
abbrev pub before_all : ℕ → List Text → List Text
before_all c [] = (c ∷ []) ∷ []
before_all c (piece ∷ pieces) = (c ∷ piece) ∷ pieces

abbrev pub split : ℕ → Text → List Text
split sep [] = [] ∷ []
split sep (c ∷ s) = if c == sep then [] ∷ split sep s else before_all c (split sep s)

-- What the producer is created with.
pub record Settings : Type 0 where
  pub brokers : List Text
  pub topic : Text

unfoldable pub settings : Text → Text → Settings
unfolding get_env
settings brokers topic = record {
  brokers = split b',' (get_env brokers (text "localhost:9092"));
  topic = get_env topic (text "user-events");
}

connected : Result (Unit {0}) → Result Redpanda
connected (ok x) = ok (record { produced = []; produce_errs = 0 })
connected (err e) = err (text "creating kafka client: " ++ e)
connected panic = panic

-- `NewRedpanda`, by the outcome of `kgo.NewClient`.
unfoldable pub new_redpanda : (Settings → Result (Unit {0})) → Settings → Result Redpanda
unfolding connected
new_redpanda new_client s = connected (new_client s)

-- A request: its path and method, the outcome of the decoder, and the id and the time that an event
-- is given.
pub record Request : Type 0 where
  pub path : Text
  pub method : Text
  pub body : Result EventRequest
  pub id : Text
  pub now : ℕ

pub data Reply : Type 0 where
  answer : Response → Reply
  healthy : Reply
  unrouted : Reply

answered : Result Response × Redpanda → Result Reply × Redpanda
answered (ok r, q) = (ok (answer r), q)
answered (err e, q) = (err e, q)
answered (panic, q) = (panic, q)

-- The routes; `value` is the JSON text of an event.
unfoldable pub serve : (Event → Text) → Request → Action Redpanda Reply
unfolding answered
serve value r q =
    if same r.path (text "/api/v1/events")
    then answered (handle_event (total value r.id r.now) r.id r.now r.method r.body q)
    else if same r.path (text "/health")
    then (ok healthy, q)
    else (ok unrouted, q)

-- The producer behind a sequence of requests.
abbrev pub serve_all : (Event → Text) → List Request → Redpanda → Redpanda
serve_all value [] q = q
serve_all value (r ∷ rs) q = serve_all value rs (serve value r q).1

-- The records of a request: those of the event that it posts, if it goes to the route of the events.
abbrev pub records_of : (Event → Text) → Request → List Record
records_of value r =
    if same r.path (text "/api/v1/events") then intake value r.id r.now r.method r.body else []

abbrev pub records_of_all : (Event → Text) → List Request → List Record
records_of_all value [] = []
records_of_all value (r ∷ rs) = records_of value r ++ records_of_all value rs

answered-state : (x : Result Response × Redpanda) → (answered x).1 ≡ x.1
unfolding answered
answered-state (ok r, q) = refl
answered-state (err e, q) = refl
answered-state (panic, q) = refl

serve-produced :
    (value : Event → Text) (r : Request) (q : Redpanda)
    → Ensures (λ _. Unit {0}) r.body
    → (serve value r q).1.produced ≡ q.produced ++ records_of value r
unfolding serve
serve-produced value r q runs = elim (Bool-cases (same r.path (text "/api/v1/events"))) [
  | inl e ↦ rw e (
      ap (λ q. q.produced)
        (answered-state (handle_event (total value r.id r.now) r.id r.now r.method r.body q))
      ∙ (handle_event-IsTaken value r.id r.now r.method r.body q runs).recorded)
  | inr e ↦ elim (Bool-cases (same r.path (text "/health"))) [
    | inl h ↦ rw (e, h) (sym (append-nil q.produced))
    | inr h ↦ rw (e, h) (sym (append-nil q.produced))
  ]
]

-- Behind any sequence of requests, the producer was handed the records of the admissible events
-- that were posted to the route of the events, in the order of the requests, and nothing else. Every
-- event has a JSON text, and the decoder does not panic.
pub serve_all-produced :
    (value : Event → Text) (rs : List Request) (q : Redpanda)
    → All (λ r. Ensures (λ _. Unit {0}) r.body) rs
    → (serve_all value rs q).produced ≡ q.produced ++ records_of_all value rs
serve_all-produced value [] q runs = sym (append-nil q.produced)
serve_all-produced value (r ∷ rs) q runs =
    serve_all-produced value rs (serve value r q).1 runs.1
    ∙ ap (λ l. l ++ records_of_all value rs) (serve-produced value r q runs.0)
    ∙ append_assoc q.produced (records_of value r) (records_of_all value rs)
