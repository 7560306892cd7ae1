-- ===== src/Simulator/Traffic/Events.antt =====
-- The random events, as the event collector takes them in.
use recsys_pipeline.Common.{
  ℕ, zero, suc, ◌<◌, ◌≤◌, ◌≡◌, refl, true, List, [], ◌∷◌, ◌++◌, length, ok, arith, Gives,
  Gives-mono, ◌∙◌,
}
use recsys_pipeline.Common.Int.{pos}
use recsys_pipeline.Common.Text.{Text, text, same, same_refl}
use recsys_pipeline.Events.{EventRequest, Redpanda, Record, is_valid_type, handle_event}
use recsys_pipeline.Events
use recsys_pipeline.Events.Intake
use recsys_pipeline.Events.Intake.{
  is_complete, is_admissible, is_accepted, intake, IsTaken, handle_event-IsTaken,
}
use recsys_pipeline.Simulator.{Random, IsRandom}
use recsys_pipeline.Simulator.Traffic.{Event, Clock, event_types, type_at, random_event}

-- The collector's request, decoded from the JSON object of the event. It has no field for the id and
-- the time, which the collector gives itself, and the event has no query.
unfoldable pub request_of : Event → EventRequest
request_of e = record {
  event_type = e.event_type;
  user_id = e.user_id;
  item_id = e.item_id;
  category_id = e.category_id;
  session_id = e.session_id;
  metadata = record {
    query = [];
    position = pos e.metadata.position;
    price = pos e.metadata.price;
    source = e.metadata.source;
  };
}

-- Every type that is drawn is one that the collector knows.
type_at-Gives :
    (i : ℕ)
    → i < length event_types
    → (t : Text) × (type_at event_types i ≡ ok t) × (is_valid_type t ≡ true)
unfolding is_valid_type same
type_at-Gives zero h = (text "click", refl, refl)
type_at-Gives (suc zero) h = (text "view", refl, refl)
type_at-Gives (suc (suc zero)) h = (text "purchase", refl, refl)
type_at-Gives (suc (suc (suc zero))) h = (text "search", refl, refl)
type_at-Gives (suc (suc (suc (suc zero)))) h = (text "add_to_cart", refl, refl)
type_at-Gives (suc (suc (suc (suc (suc zero))))) h = (text "remove_from_cart", refl, refl)
type_at-Gives (suc (suc (suc (suc (suc (suc i)))))) h = absurd (omega arith)

pub record IsSendable (e : Event) : Type 0 where
  pub whole : is_complete (request_of e) ≡ true
  pub position_range : (1 ≤ e.metadata.position) × (e.metadata.position ≤ 50)
  pub price_range : (100 ≤ e.metadata.price) × (e.metadata.price ≤ 100099)

whole_intake :
    (value : Events.Event → Text) (id : Text) (now : ℕ) (produced : List Record) (e : Event)
    → IsSendable e
    → produced ++ intake value id now (text "POST") (ok (request_of e))
      ≡ produced
        ++ record { key = e.user_id; value = value (Events.event_of id now (request_of e)) } ∷ []
unfolding request_of
whole_intake value id now produced e h =
    let post : same (text "POST") (text "POST") ≡ true = same_refl (text "POST") in
    rw (post, h.whole) refl

module _ {σ : Type 0} (r : Random σ) (random : IsRandom r) (clock : Clock σ) where
  random_event-Gives : (idx : ℕ) (s : σ) → Gives (λ e _. IsSendable e) (random_event r clock idx s)
  unfolding random_event request_of same
  random_event-Gives idx s =
      let s1 = (r.intn 100000 s).1 in
      let s2 = (r.intn 1000000 s1).1 in
      let s3 = (r.intn 50 s2).1 in
      let s4 = (r.intn 1000000000 s3).1 in
      let kind = r.intn 6 s4 in
      let known = type_at-Gives kind.0 (random.intn-lt 6 s4 (omega arith)) in
      let s5 = (clock.rfc3339 (clock.unix_nano kind.1).1).1 in
      rw known.1 (record {
        whole = rw known.2 refl;
        position_range = omega (arith, random.intn-lt 50 s5);
        price_range = omega (arith, random.intn-lt 100000 (r.intn 50 s5).1);
      })

  -- Every random event, posted to the event collector, is accepted: its type is one that the
  -- collector knows, and it names a user and an item. One record is produced, of the user and the
  -- values that were drawn. Its position is from 1 to 50, and its price from 100 to 100,099. The
  -- random numbers are in their ranges, every event has a JSON text, and the collector decodes the
  -- fields that were encoded.
  pub random_event-accepted :
      (idx : ℕ) (s : σ) (value : Events.Event → Text) (id : Text) (now : ℕ) (q : Redpanda)
      → Gives
          (λ e _.
            (is_accepted id
                (handle_event
                  (Intake.total value id now)
                  id
                  now
                  (text "POST")
                  (ok (request_of e))
                  q).0
              ≡ true)
            × ((handle_event
                  (Intake.total value id now)
                  id
                  now
                  (text "POST")
                  (ok (request_of e))
                  q).1.produced
                ≡ q.produced
                  ++ record {
                    key = e.user_id;
                    value = value (Events.event_of id now (request_of e));
                  }
                    ∷ [])
            × ((1 ≤ e.metadata.position) × (e.metadata.position ≤ 50))
            × ((100 ≤ e.metadata.price) × (e.metadata.price ≤ 100099)))
          (random_event r clock idx s)
  random_event-accepted idx s value id now q =
      Gives-mono (λ e _. IsSendable e) _ (random_event r clock idx s) (random_event-Gives idx s)
        λ e t h.
          let taken = handle_event-IsTaken value id now (text "POST") (ok (request_of e)) q tt in
          let post : same (text "POST") (text "POST") ≡ true = same_refl (text "POST") in
          (
            taken.answered ∙ rw (post, h.whole) refl,
            taken.recorded ∙ whole_intake value id now q.produced e h,
            h.position_range,
            h.price_range,
          )
