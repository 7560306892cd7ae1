-- ===== src/Events/Tests.antt =====
-- Events that are taken in and counted.
use recsys_pipeline.Common.{◌≡◌, refl, List, [], ◌∷◌, ok}
use recsys_pipeline.Common.Int.{pos}
use recsys_pipeline.Common.Text.{Text, text, same}
use recsys_pipeline.Events.{
  Event, EventRequest, Redpanda, failure, accepted, handle_event, event_of, redpanda, is_valid_type,
}
use recsys_pipeline.Events.Counter.{key}
use recsys_pipeline.Events.Intake.{IsTaken, total, handle_event-IsTaken}

abbrev click : EventRequest
click = record {
  event_type = text "click";
  user_id = text "u_1";
  item_id = text "i_1";
  category_id = [];
  session_id = [];
  metadata = record { query = []; position = pos 3; price = pos 0; source = [] };
}

abbrev value : Event → Text
value e = e.item_id

abbrev empty : Redpanda
empty = record { produced = []; produce_errs = 0 }

answers :
    (handle_event (total value (text "id") 7) (text "id") 7 (text "POST") (ok click) empty ≡ (
      ok (accepted (text "id")),
      record { produced = record { key = text "u_1"; value = text "i_1" } ∷ []; produce_errs = 0 },
    ))
    × (handle_event
          (total value (text "id") 7)
          (text "id")
          7
          (text "POST")
          (ok (record click { event_type = text "tap"; user_id = [] }))
          empty
        ≡ (ok (failure 400 (text "invalid event_type")), empty))
unfolding handle_event redpanda event_of is_valid_type same
answers = (refl, refl)

handle_event-IsTaken_example :
    IsTaken value
      (text "id")
      7
      (text "POST")
      (ok click)
      empty
      (handle_event (total value (text "id") 7) (text "id") 7 (text "POST") (ok click) empty)
handle_event-IsTaken_example =
    handle_event-IsTaken value (text "id") 7 (text "POST") (ok click) empty tt

-- Two users and types with one key.
shared_key : key (text "a:b") (text "c") ≡ key (text "a") (text "b:c")
unfolding key
shared_key = refl

abbrev history : List (Text × Text)
history = (text "u:1", text "click") ∷ (text "u", text "view") ∷ (text "u:1", text "click") ∷ []
