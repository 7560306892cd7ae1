-- ===== src/Simulator/Traffic.antt =====
-- services/traffic-simulator/cmd/simulate/main.go: the program that posts random events to the event
-- collector. The clock, the JSON encoder and the HTTP client are parameters.
pub mod Events
pub mod Sending
mod Tests
use recsys_pipeline.Common.{
  ℕ, zero, suc, ◌+◌, ◌-◌, ◌<◌, ◌≡◌, Bool, true, false, ◌&&◌, Option, none, some, List, [], ◌∷◌,
  ◌++◌, Result, ok, err, panic, Action, ◌>>=◌, pure, of_result, get_or, length, ltb, leb,
  if◌then◌else◌,
}
use recsys_pipeline.Common.Int.{ℤ, pos, negsuc, pos_part}
use recsys_pipeline.Common.Text.{Text, text, same}
use recsys_pipeline.Common.Decimal.{itoa, pad_zero}
use recsys_pipeline.Strconv.{atoi}
use recsys_pipeline.Simulator.{Random, total, category_name}

pub record Metadata : Type 0 where
  pub position : ℕ
  pub price : ℕ
  pub source : Text

pub record Event : Type 0 where
  pub event_id : Text
  pub user_id : Text
  pub event_type : Text
  pub item_id : Text
  pub category_id : Text
  pub timestamp : Text
  pub session_id : Text
  pub metadata : Metadata

-- `time.Now`: the nanoseconds since the epoch, and the time in RFC 3339.
pub record Clock (σ : Type 0) : Type 0 where
  pub unix_nano : σ → ℕ × σ
  pub rfc3339 : σ → Text × σ

abbrev pub event_types : List Text
event_types =
    text "click"
    ∷ text "view"
    ∷ text "purchase"
    ∷ text "search"
    ∷ text "add_to_cart"
    ∷ text "remove_from_cart"
    ∷ []

-- `eventTypes[i]`
abbrev pub type_at : List Text → ℕ → Result Text
type_at [] i = panic
type_at (t ∷ ts) zero = ok t
type_at (t ∷ ts) (suc i) = type_at ts i

-- The names of the user and the item of an event, by the numbers that are drawn.
unfoldable pub event_user : ℕ → Text
event_user n = text "user_" ++ pad_zero 6 n

unfoldable pub event_item : ℕ → Text
event_item n = text "item_" ++ pad_zero 7 n

module _ {σ : Type 0} (r : Random σ) (clock : Clock σ) where
  unfoldable pub random_event : ℕ → Action σ Event
  unfolding event_user event_item
  random_event idx = do
    user ← total (r.intn 100000)
    item ← total (r.intn 1000000)
    category ← total (r.intn 50)
    session ← total (r.intn 1000000000)
    kind ← total (r.intn (length event_types))
    event_type ← of_result (type_at event_types kind)
    nano ← total clock.unix_nano
    timestamp ← total clock.rfc3339
    position ← total (r.intn 50)
    price ← total (r.intn 100000)
    pure (record {
      event_id = text "evt_" ++ (itoa nano ++ (text "_" ++ itoa idx));
      user_id = event_user user;
      event_type = event_type;
      item_id = event_item item;
      category_id = category_name category;
      timestamp = timestamp;
      session_id = text "sess_" ++ pad_zero 10 session;
      metadata = record {
        position = position + 1;
        price = price + 100;
        source = text "traffic-simulator";
      };
    })

-- The values of the environment variables; `log.Fatalf` ends the program with the error.
read_setting : Text → Option ℤ → Result ℤ
read_setting name none = err (text "invalid " ++ name)
read_setting name (some n) = ok n

unfoldable pub setting : Text → Text → ℤ → Result ℤ
unfolding read_setting
setting name v default = if same v [] then ok default else read_setting name (atoi v)

unfoldable pub collector_url : Text → Text
collector_url v = if same v [] then text "http://localhost:8080" else v

-- What became of one event: not encoded, not delivered, or answered with a status.
pub data Outcome : Type 0 where
  not_encoded : Outcome
  not_delivered : Outcome
  answered : ℕ → Outcome

unfoldable pub is_sent : Outcome → Bool
is_sent not_encoded = false
is_sent not_delivered = false
is_sent (answered status) = leb 200 status && ltb status 300

-- The loop and its goroutines: the calls of `wg.Add`, the goroutines started, those of them that
-- are sending, that have counted their event, that have left the semaphore, and that are done; and
-- the two counts.
pub record Run : Type 0 where
  pub added : ℕ
  pub started : ℕ
  pub sending : ℕ
  pub counted : ℕ
  pub released : ℕ
  pub done : ℕ
  pub sent : ℕ
  pub failures : ℕ

abbrev pub idle : Run
idle = record {
  added = 0;
  started = 0;
  sending = 0;
  counted = 0;
  released = 0;
  done = 0;
  sent = 0;
  failures = 0;
}

-- The mutex section at the end of a goroutine.
unfoldable pub count : Outcome → Run → Run
unfolding is_sent
count o s =
    if is_sent o then record s { sent = s.sent + 1 } else record s { failures = s.failures + 1 }

-- One step of one of the goroutines, with `n` events to send and room for `c` in the semaphore,
-- which a goroutine enters before it is started.
pub data Step (n c : ℕ) : Run → Run → Type 0 where
  add :
      (s : Run) → s.added ≡ s.started → s.added < n → Step n c s (record s { added = s.added + 1 })
  start :
      (s : Run)
      → s.started < s.added
      → s.sending + s.counted < c
      → Step n c s (record s { started = s.started + 1; sending = s.sending + 1 })
  finish :
      (s : Run) (o : Outcome)
      → 0 < s.sending
      → Step n c s (count o (record s { sending = s.sending - 1; counted = s.counted + 1 }))
  release :
      (s : Run)
      → 0 < s.counted
      → Step n c s (record s { counted = s.counted - 1; released = s.released + 1 })
  leave :
      (s : Run)
      → 0 < s.released
      → Step n c s (record s { released = s.released - 1; done = s.done + 1 })

-- A number of steps.
pub data Steps (n c : ℕ) (s : Run) : ℕ → Run → Type 0 where
  here : Steps n c s zero s
  next : {k : ℕ} {t u : Run} → Steps n c s k t → Step n c t u → Steps n c s (suc k) u

-- `wg.Wait` has returned: the loop is over, and every `wg.Add` has its `wg.Done`.
abbrev pub IsComplete : ℕ → Run → Type 0
IsComplete n s = (s.added ≡ n) × (s.started ≡ n) × (s.done ≡ n)

-- `for i := range n` runs no round for a negative number, and `make` panics on a negative capacity.
unfoldable pub rounds : ℤ → ℕ
rounds n = pos_part n

unfoldable pub capacity : ℤ → Result ℕ
capacity (pos c) = ok c
capacity (negsuc c) = panic
