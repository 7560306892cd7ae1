-- ===== src/Events.antt =====
-- services/event-collector and shared/go/event/event.go: the events, the HTTP handler that takes
-- them in, the producer that hands them to Redpanda, and the counter of events. The JSON codec, the
-- identifiers, the clock and the Kafka client are parameters.
pub mod Counter
pub mod Intake
pub mod Server
mod Tests
use recsys_pipeline.Common.{
  ℕ, ◌+◌, ◌%◌, ◌^◌, Bool, true, false, not, ◌||◌, ◌&&◌, Option, none, some, List, [], ◌∷◌, ◌++◌,
  Result, ok, err, panic, Error, Action, if◌then◌else◌,
}
use recsys_pipeline.Common.Int.{ℤ}
use recsys_pipeline.Common.Text.{Text, text, same}

pub record Metadata : Type 0 where
  pub query : Text
  pub position : ℤ
  pub price : ℤ
  pub source : Text

pub record Event : Type 0 where
  pub event_id : Text
  pub user_id : Text
  pub event_type : Text
  pub item_id : Text
  pub category_id : Text
  pub timestamp : ℕ
  pub session_id : Text
  pub metadata : Metadata

pub record EventRequest : Type 0 where
  pub event_type : Text
  pub user_id : Text
  pub item_id : Text
  pub category_id : Text
  pub session_id : Text
  pub metadata : Metadata

-- The keys of `validTypes`, the constants of `event.Type`.
unfoldable pub is_valid_type : Text → Bool
is_valid_type s =
    same s (text "click")
    || (same s (text "view")
        || (same s (text "purchase")
            || (same s (text "search")
                || (same s (text "add_to_cart") || same s (text "remove_from_cart")))))

pub data Response : Type 0 where
  failure : ℕ → Text → Response
  accepted : (event_id : Text) → Response

pub record Producer (σ : Type 0) : Type 0 where
  pub publish : Event → Action σ (Unit {0})

unfoldable pub event_of : Text → ℕ → EventRequest → Event
event_of id now req = record {
  event_id = id;
  user_id = req.user_id;
  event_type = req.event_type;
  item_id = req.item_id;
  category_id = req.category_id;
  timestamp = now;
  session_id = req.session_id;
  metadata = req.metadata;
}

module _ {σ : Type 0} (p : Producer σ) (id : Text) (now : ℕ) where
  published : Text → Result (Unit {0}) × σ → Result Response × σ
  published id (ok x, t) = (ok (accepted id), t)
  published id (err e, t) = (ok (failure 500 (text "failed to publish event")), t)
  published id (panic, t) = (panic, t)

  -- The guards on a request that could be decoded, in their order.
  checked : EventRequest → Action σ Response
  unfolding published
  checked req t =
      if not (is_valid_type req.event_type)
      then (ok (failure 400 (text "invalid event_type")), t)
      else if same req.user_id []
      then (ok (failure 400 (text "user_id is required")), t)
      else if same req.item_id []
      then (ok (failure 400 (text "item_id is required")), t)
      else published id (p.publish (event_of id now req) t)

  decoded : Result EventRequest → Action σ Response
  unfolding checked
  decoded (ok req) t = checked req t
  decoded (err e) t = (ok (failure 400 (text "invalid JSON: " ++ e)), t)
  decoded panic t = (panic, t)

  -- `body` is the outcome of the decoder.
  unfoldable pub handle_event : Text → Result EventRequest → Action σ Response
  unfolding decoded
  handle_event method body t =
      if not (same method (text "POST"))
      then (ok (failure 405 (text "method not allowed")), t)
      else decoded body t

-- A record for the topic: its partition key and its value.
pub record Record : Type 0 where
  pub key : Text
  pub value : Text

-- The Kafka client's queue, and the errors of its callbacks.
pub record Redpanda : Type 0 where
  pub produced : List Record
  pub produce_errs : ℕ

after_marshal : Event → Result Text → Action Redpanda (Unit {0})
after_marshal e (ok value) r =
    (ok tt, record r { produced = r.produced ++ record { key = e.user_id; value = value } ∷ [] })
after_marshal e (err x) r = (err (text "marshaling event: " ++ x), r)
after_marshal e panic r = (panic, r)

-- `json.Marshal` is a parameter.
unfoldable pub publish : (Event → Result Text) → Event → Action Redpanda (Unit {0})
unfolding after_marshal
publish marshal e r = after_marshal e (marshal e) r

-- The callback of one record, with its error.
unfoldable pub delivered : Option Error → Redpanda → Redpanda
delivered none r = r
delivered (some e) r = record r { produce_errs = (r.produce_errs + 1) % 2 ^ 64 }

unfoldable pub redpanda : (Event → Result Text) → Producer Redpanda
unfolding publish
redpanda marshal = record { publish = publish marshal }
