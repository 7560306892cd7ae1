-- ===== src/Events/Intake.antt =====
-- services/event-collector/internal/handler/event_handler.go with the producer of
-- internal/producer/redpanda.go: which events are taken in.
use recsys_pipeline.Common.{
  ℕ, suc, ◌+◌, ◌%◌, ◌^◌, ◌≡◌, refl, sym, ◌∙◌, Bool, true, false, not, ◌&&◌, Option, none, some,
  List, [], ◌∷◌, ◌++◌, append-nil, Result, ok, err, panic, Error, arith, if◌then◌else◌, Bool-cases,
  inl, inr, Ensures,
}
use recsys_pipeline.Common.Text.{Text, text, same, same_refl}
use recsys_pipeline.Events.{
  Event, EventRequest, Response, failure, accepted, Producer, Record, Redpanda, is_valid_type,
  published, checked, decoded, handle_event, event_of, redpanda, delivered,
}

-- A known type, a user and an item.
abbrev pub is_complete : EventRequest → Bool
is_complete req =
    is_valid_type req.event_type && (not (same req.user_id []) && not (same req.item_id []))

-- A POST request with a body that can be decoded and is complete.
abbrev pub is_admissible : Text → Result EventRequest → Bool
is_admissible method (ok req) = same method (text "POST") && is_complete req
is_admissible method (err e) = false
is_admissible method panic = false

abbrev pub is_accepted : Text → Result Response → Bool
is_accepted id (ok (failure code message)) = false
is_accepted id (ok (accepted id')) = same id' id
is_accepted id (err e) = false
is_accepted id panic = false

-- The record of an admissible request, under its user's key.
abbrev pub intake : (Event → Text) → Text → ℕ → Text → Result EventRequest → List Record
intake value id now method (ok req) =
    if is_admissible method (ok req)
    then record { key = req.user_id; value = value (event_of id now req) } ∷ []
    else []
intake value id now method (err e) = []
intake value id now method panic = []

-- The answer and the records of a request.
pub record IsTaken (value : Event → Text) (id : Text) (now : ℕ) (method : Text)
    (body : Result EventRequest) (r : Redpanda) (out : Result Response × Redpanda) : Type 0 where
  pub answered : is_accepted id out.0 ≡ is_admissible method body
  pub recorded : out.1.produced ≡ r.produced ++ intake value id now method body
  pub errors_kept : out.1.produce_errs ≡ r.produce_errs

same_id : (id : Text) → same id id ≡ true
same_id id = same_refl id

module _ (value : Event → Text) (id : Text) (now : ℕ) where
  abbrev pub total : Producer Redpanda
  total = redpanda (λ e. ok (value e))

  checked-IsTaken :
      (method : Text) (req : EventRequest) (r : Redpanda)
      → same method (text "POST") ≡ true
      → IsTaken value id now method (ok req) r (checked total id now req r)
  unfolding checked published redpanda event_of
  checked-IsTaken method req r post = elim (Bool-cases (is_valid_type req.event_type)) [
    | inr e ↦ record {
      answered = rw (e, post) refl;
      recorded = rw (e, post) (sym (append-nil r.produced));
      errors_kept = rw e refl;
    }
    | inl e ↦ elim (Bool-cases (same req.user_id [])) [
      | inl k ↦ record {
        answered = rw (e, k, post) refl;
        recorded = rw (e, k, post) (sym (append-nil r.produced));
        errors_kept = rw (e, k) refl;
      }
      | inr k ↦ elim (Bool-cases (same req.item_id [])) [
        | inl h ↦ record {
          answered = rw (e, k, h, post) refl;
          recorded = rw (e, k, h, post) (sym (append-nil r.produced));
          errors_kept = rw (e, k, h) refl;
        }
        | inr h ↦ record {
          answered = rw (e, k, h, post) (same_id id);
          recorded = rw (e, k, h, post) refl;
          errors_kept = rw (e, k, h) refl;
        }
      ]
    ]
  ]

  decoded-IsTaken :
      (method : Text) (body : Result EventRequest) (r : Redpanda)
      → same method (text "POST") ≡ true
      → Ensures (λ _. Unit {0}) body
      → IsTaken value id now method body r (decoded total id now body r)
  unfolding decoded
  decoded-IsTaken method (ok req) r post runs = checked-IsTaken method req r post
  decoded-IsTaken method (err e) r post runs = record {
    answered = refl;
    recorded = sym (append-nil r.produced);
    errors_kept = refl;
  }
  decoded-IsTaken method panic r post runs = absurd runs

  refused-IsTaken :
      (method : Text) (body : Result EventRequest) (r : Redpanda) (code : ℕ) (message : Text)
      → same method (text "POST") ≡ false
      → IsTaken value id now method body r (ok (failure code message), r)
  refused-IsTaken method (ok req) r code message other = record {
    answered = rw other refl;
    recorded = rw other (sym (append-nil r.produced));
    errors_kept = refl;
  }
  refused-IsTaken method (err e) r code message other = record {
    answered = refl;
    recorded = sym (append-nil r.produced);
    errors_kept = refl;
  }
  refused-IsTaken method panic r code message other = record {
    answered = refl;
    recorded = sym (append-nil r.produced);
    errors_kept = refl;
  }

  -- A request is accepted exactly if it is a POST of an event that can be decoded, with a known
  -- type, a user and an item. Then one record is produced, under the user's key, with the values of
  -- the request; otherwise none. Every event must have a JSON text, and the decoder must not panic.
  pub handle_event-IsTaken :
      (method : Text) (body : Result EventRequest) (r : Redpanda)
      → Ensures (λ _. Unit {0}) body
      → IsTaken value id now method body r (handle_event total id now method body r)
  unfolding handle_event
  handle_event-IsTaken method body r runs = elim (Bool-cases (same method (text "POST"))) [
    | inl e ↦ rw e (decoded-IsTaken method body r e runs)
    | inr e ↦ rw e (refused-IsTaken method body r 405 (text "method not allowed") e)
  ]

-- How many of the deliveries failed.
abbrev pub failures : List (Option Error) → ℕ
failures [] = 0
failures (none ∷ ds) = failures ds
failures (some e ∷ ds) = suc (failures ds)

abbrev pub deliveries : List (Option Error) → Redpanda → Redpanda
deliveries [] r = r
deliveries (d ∷ ds) r = deliveries ds (delivered d r)

add_one : (n m : ℕ) → ((n + 1) % 2 ^ 64 + m) % 2 ^ 64 ≡ (n + suc m) % 2 ^ 64
add_one n m = omega arith

-- The producer's error count is the number of the deliveries that failed, modulo 2 ^ 64; no
-- delivery changes what was produced.
pub deliveries-failures :
    (ds : List (Option Error)) (r : Redpanda)
    → ((deliveries ds r).produce_errs % 2 ^ 64 ≡ (r.produce_errs + failures ds) % 2 ^ 64)
      × ((deliveries ds r).produced ≡ r.produced)
unfolding delivered
deliveries-failures [] r = (omega arith, refl)
deliveries-failures (none ∷ ds) r = deliveries-failures ds r
deliveries-failures (some e ∷ ds) r =
    let (counted, kept) = deliveries-failures ds (delivered (some e) r) in
    (counted ∙ add_one r.produce_errs (failures ds), kept)
