-- ===== src/Breaker.antt =====
-- services/recommendation-api/internal/circuitbreaker/breaker.go: the circuit breaker, with each
-- method as one atomic call. Clock readings and durations are numbers of nanoseconds, and a
-- reading is an argument of the call that takes it; `int64` counters wrap at 2 ^ 64.
pub mod Closing
pub mod Interleaved
pub mod Probing
mod Tests
use recsys_pipeline.Common.{ℕ, ◌+◌, ◌%◌, ◌^◌, Bool, true, false, List, [], ◌∷◌, leb, if◌then◌else◌}
use recsys_pipeline.Common.Text.{Text}

pub data State : Type 0 where
  closed opened half_open : State

pub record Breaker : Type 0 where
  pub name : Text
  pub state : State
  pub fail_count : ℕ
  pub success_count : ℕ
  pub threshold : ℕ
  pub reset_timeout : ℕ
  pub last_tripped : ℕ
  pub probing : Bool

unfoldable pub new : Text → ℕ → ℕ → Breaker
new name threshold reset_timeout = record {
  name = name;
  state = closed;
  fail_count = 0;
  success_count = 0;
  threshold = threshold;
  reset_timeout = reset_timeout;
  last_tripped = 0;
  probing = false;
}

unfoldable pub get_state : Breaker → State
get_state b = b.state

-- `a >= b` on two `int64`, given as bit patterns.
abbrev pub ge_int64 : ℕ → ℕ → Bool
ge_int64 a b = leb ((b + 2 ^ 63) % 2 ^ 64) ((a + 2 ^ 63) % 2 ^ 64)

-- `probing.CompareAndSwap(true, false)`
unfoldable pub try_probe : Breaker → Breaker × Bool
try_probe b = if b.probing then (record b { probing = false }, true) else (b, false)

-- `state.CompareAndSwap(Open, HalfOpen)`, and what its winner stores
swap_in : State → Breaker → Breaker
swap_in opened b = record b { state = half_open; probing = true }
swap_in _ b = b

-- The `default` case of the switch is for a state that no method stores.
allow_in : State → ℕ → Breaker → Breaker × Bool
unfolding swap_in
allow_in closed now b = (b, true)
allow_in opened now b =
    if leb (b.last_tripped + b.reset_timeout) now then try_probe (swap_in b.state b) else (b, false)
allow_in half_open now b = try_probe b

unfoldable pub allow : ℕ → Breaker → Breaker × Bool
unfolding allow_in try_probe
allow now b = allow_in b.state now b

success_in : State → Breaker → Breaker
success_in half_open b = record b { state = closed; fail_count = 0 }
success_in _ b = b

unfoldable pub record_success : Breaker → Breaker
unfolding success_in
record_success b = success_in b.state (record b { success_count = (b.success_count + 1) % 2 ^ 64 })

trip : ℕ → Breaker → Breaker
trip now b = record b { state = opened; last_tripped = now }

failure_in : State → ℕ → Breaker → Breaker
unfolding trip
failure_in half_open now b = trip now b
failure_in _ now b =
    let new_count = (b.fail_count + 1) % 2 ^ 64 in
    let counted = record b { fail_count = new_count } in
    if ge_int64 new_count b.threshold then trip now counted else counted

unfoldable pub record_failure : ℕ → Breaker → Breaker
unfolding failure_in
record_failure now b = failure_in b.state now b

-- A call of the breaker, with the clock reading that it takes.
pub data Call : Type 0 where
  allows : ℕ → Call
  succeeds : Call
  fails : ℕ → Call

unfoldable pub step : Call → Breaker → Breaker × List Bool
unfolding allow record_success record_failure
step (allows now) b = let (c, admitted) = allow now b in (c, admitted ∷ [])
step succeeds b = (record_success b, [])
step (fails now) b = (record_failure now b, [])
