-- ===== src/Breaker/Interleaved.antt =====
-- services/recommendation-api/internal/circuitbreaker/breaker.go, with its methods interleaved: each
-- atomic operation of a method is one step of its goroutine. A schedule says which goroutine moves
-- next, and at which time.
pub mod Alone
pub mod Probes
mod Tests
use recsys_pipeline.Common.{
  ℕ, zero, suc, ◌+◌, ◌%◌, ◌^◌, Bool, true, false, List, [], ◌∷◌, leb, if◌then◌else◌,
}
use recsys_pipeline.Breaker.{Breaker, State, closed, opened, half_open, ge_int64}

-- Where a goroutine is in its method.
pub data Place : Type 0 where
  -- Allow: at its start; with the state it loaded; past the timeout; after it won the transition;
  -- at the probe slot; and at its end, with its answer.
  allowing : Place
  loaded : State → Place
  past_timeout : Place
  swapped : Place
  at_slot : Place
  answered : Bool → Place
  -- RecordSuccess: at its start; before the transition; before the reset of the count.
  succeeding : Place
  closing : Place
  resetting : Place
  -- RecordFailure: at its start; with the state it loaded; before it stores the state, and the time.
  failing : Place
  failed_in : State → Place
  opening : Place
  stamping : Place
  finished : Place

-- The breaker, with the number of transitions from open to half-open and of probes so far.
pub record Shared : Type 0 where
  pub breaker : Breaker
  pub transitions : ℕ
  pub probes : ℕ

-- `state.CompareAndSwap(Open, HalfOpen)`
swap_open : State → Shared → Place × Shared
swap_open opened s = (
  swapped,
  record s { breaker = record s.breaker { state = half_open }; transitions = s.transitions + 1 },
)
swap_open closed s = (at_slot, s)
swap_open half_open s = (at_slot, s)

-- `state.CompareAndSwap(HalfOpen, Closed)`
swap_half : State → Shared → Place × Shared
swap_half half_open s = (resetting, record s { breaker = record s.breaker { state = closed } })
swap_half closed s = (finished, s)
swap_half opened s = (finished, s)

-- `failCount.Add(1)`, and the comparison of its result.
count_failure : Shared → Place × Shared
count_failure s =
    let new_count = (s.breaker.fail_count + 1) % 2 ^ 64 in
    (
      if ge_int64 new_count s.breaker.threshold then opening else finished,
      record s { breaker = record s.breaker { fail_count = new_count } },
    )

take_slot : Bool → Shared → Place × Shared
take_slot true s = (
  answered true,
  record s { breaker = record s.breaker { probing = false }; probes = s.probes + 1 },
)
take_slot false s = (answered false, s)

-- The next atomic operation of a goroutine.
unfoldable pub move : ℕ → Place → Shared → Place × Shared
unfolding swap_open swap_half count_failure take_slot
move now allowing s = (loaded s.breaker.state, s)
move now (loaded closed) s = (answered true, s)
move now (loaded opened) s = (
  if leb (s.breaker.last_tripped + s.breaker.reset_timeout) now
      then past_timeout
      else answered false,
  s,
)
move now (loaded half_open) s = (at_slot, s)
move now past_timeout s = swap_open s.breaker.state s
move now swapped s = (at_slot, record s { breaker = record s.breaker { probing = true } })
move now at_slot s = take_slot s.breaker.probing s
move now (answered b) s = (answered b, s)
move now succeeding s = (
  closing,
  record s {
    breaker = record s.breaker { success_count = (s.breaker.success_count + 1) % 2 ^ 64 };
  },
)
move now closing s = swap_half s.breaker.state s
move now resetting s = (finished, record s { breaker = record s.breaker { fail_count = 0 } })
move now failing s = (failed_in s.breaker.state, s)
move now (failed_in half_open) s = (opening, s)
move now (failed_in closed) s = count_failure s
move now (failed_in opened) s = count_failure s
move now opening s = (stamping, record s { breaker = record s.breaker { state = opened } })
move now stamping s = (finished, record s { breaker = record s.breaker { last_tripped = now } })
move now finished s = (finished, s)

-- The goroutine with the given index moves; an index without a goroutine changes nothing.
unfoldable pub step_at : ℕ → ℕ → List Place → Shared → List Place × Shared
unfolding move
step_at i now [] s = ([], s)
step_at zero now (p ∷ ps) s = let (p', s') = move now p s in (p' ∷ ps, s')
step_at (suc i) now (p ∷ ps) s = let (ps', s') = step_at i now ps s in (p ∷ ps', s')

-- The steps of a schedule: indices, and times.
unfoldable pub run : List (ℕ × ℕ) → List Place → Shared → List Place × Shared
unfolding step_at
run [] ps s = (ps, s)
run ((i, now) ∷ steps) ps s = let (ps', s') = step_at i now ps s in run steps ps' s'
