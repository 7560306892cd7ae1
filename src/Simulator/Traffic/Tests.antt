-- ===== src/Simulator/Traffic/Tests.antt =====
-- Runs of the traffic simulator, with a source that draws 0 or the state.
use recsys_pipeline.Common.{
  ℕ, ◌+◌, ◌*◌, ◌<◌, ◌≤◌, ◌≡◌, ◌⊎◌, refl, true, [], ◌∷◌, ◌++◌, ok, err, panic, Gives, arith,
}
use recsys_pipeline.Common.Int.{pos, negsuc}
use recsys_pipeline.Common.Text.{text, same}
use recsys_pipeline.Strconv.{atoi, parse_int}
use recsys_pipeline.Events.{Redpanda, Record, handle_event}
use recsys_pipeline.Events
use recsys_pipeline.Events.Intake
use recsys_pipeline.Events.Intake.{is_accepted}
use recsys_pipeline.Simulator.Tests.{counting, counting-IsRandom}
use recsys_pipeline.Simulator.Traffic.{
  Clock, random_event, setting, capacity, Run, idle, answered, is_sent, count, Step, Steps,
  IsComplete, add, start, finish, release, leave, here, next,
}
use recsys_pipeline.Simulator.Traffic.Events.{request_of, random_event-accepted}
use recsys_pipeline.Simulator.Traffic.Sending.{sending_ends, no_room_hangs}

abbrev ticking : Clock ℕ
ticking = record { unix_nano = λ s. (s, s + 1); rfc3339 = λ s. (text "2026-01-01T00:00:00Z", s) }

abbrev log : Redpanda
log = record { produced = []; produce_errs = 0 }

settings :
    (setting (text "TOTAL_EVENTS") (text "25") (pos 1000) ≡ ok (pos 25))
    × (setting (text "TOTAL_EVENTS") [] (pos 1000) ≡ ok (pos 1000))
    × (setting (text "CONCURRENCY") (text "x") (pos 10) ≡ err (text "invalid CONCURRENCY"))
    × (capacity (negsuc 0) ≡ panic)
unfolding setting capacity same atoi parse_int
settings = (refl, refl, refl, refl)

random_event-accepted_example :
    Gives
      (λ e _.
        (is_accepted
            (text "e-1")
            (handle_event
              (Intake.total (λ e. e.user_id) (text "e-1") 9)
              (text "e-1")
              9
              (text "POST")
              (ok (request_of e))
              log).0
          ≡ true)
        × ((handle_event
              (Intake.total (λ e. e.user_id) (text "e-1") 9)
              (text "e-1")
              9
              (text "POST")
              (ok (request_of e))
              log).1.produced
            ≡ [] ++ record { key = e.user_id; value = e.user_id } ∷ [])
        × ((1 ≤ e.metadata.position) × (e.metadata.position ≤ 50))
        × ((100 ≤ e.metadata.price) × (e.metadata.price ≤ 100099)))
      (random_event counting ticking 3 0)
unfolding Events.event_of request_of
random_event-accepted_example =
    random_event-accepted counting counting-IsRandom ticking 3 0 (λ e. e.user_id) (text "e-1") 9 log

abbrev one_added : Run
one_added = record idle { added = 1 }

abbrev one_left : Run
one_left = record idle { added = 1; started = 1; done = 1; sent = 1 }

-- One event, answered with 202, with room for one.
one_event : Steps 1 1 idle 5 one_left
unfolding count is_sent
one_event =
    next
      (next
        (next (next (next here (add _ refl (omega arith))) (start _ (omega arith) (omega arith)))
          (finish _ (answered 202) (omega arith)))
        (release _ (omega arith)))
      (leave _ (omega arith))

sending_ends_example :
    (one_left.sending ≤ 1)
    × (((5 < 5 * 1) × ((u : Run) × Step 1 1 one_left u))
        ⊎ ((5 ≡ 5 * 1) × IsComplete 1 one_left × (one_left.sent + one_left.failures ≡ 1)))
sending_ends_example = sending_ends (omega arith) one_event

no_room_hangs_example : (1 ≤ 1) × ¬ IsComplete 3 one_added
no_room_hangs_example =
    no_room_hangs {n = 3} (omega arith) (next here (add idle refl (omega arith)))
