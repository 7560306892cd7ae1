-- ===== src/Breaker/Tests.antt =====
-- The breaker at concrete inputs: that of the server, with five failures and thirty seconds.
use recsys_pipeline.Common.{◌≡◌, refl, List, [], ◌∷◌, arith}
use recsys_pipeline.Common.Text.{text}
use recsys_pipeline.Breaker.{Breaker, new, opened, half_open, Call, allows, succeeds, fails, step}
use recsys_pipeline.Breaker.Closing.{IsClosed, after, answers, AllTrue, trips_after}
use recsys_pipeline.Breaker.Probing.{IsOpen, IsWaiting, admitted, requests, open_admits_one}

abbrev server : Breaker
unfolding new
server = new (text "triton") 5 30000000000

server-IsClosed : IsClosed 0 server
unfolding new
server-IsClosed = record { is_closed = refl; counted = refl; positive = omega arith }

abbrev four_failures : List Call
four_failures = fails 1 ∷ succeeds ∷ fails 2 ∷ allows 3 ∷ fails 4 ∷ succeeds ∷ fails 5 ∷ []

trips_after_example :
    let b' = (step (fails 9) (after four_failures server)).0 in
    AllTrue (answers four_failures server) × (b'.state ≡ opened) × (b'.last_tripped ≡ 9)
unfolding new
trips_after_example = trips_after four_failures 9 server server-IsClosed refl

-- Successes in between do not reset the count: no two of these five failures are consecutive.
spread_failures_trip :
    (after
      (fails 1
        ∷ succeeds
        ∷ fails 2
        ∷ succeeds
        ∷ fails 3
        ∷ succeeds
        ∷ fails 4
        ∷ succeeds
        ∷ fails 5
        ∷ [])
      server).state
    ≡ opened
unfolding new step
spread_failures_trip = refl

abbrev tripped : Breaker
tripped = record server { state = opened; fail_count = 5; last_tripped = 100 }

abbrev probed : Breaker
probed = record server { state = half_open; fail_count = 5; last_tripped = 100 }

tripped-IsOpen : IsOpen tripped
unfolding new
tripped-IsOpen = record { is_open = refl; offered = refl }

probed-IsWaiting : IsWaiting probed
unfolding new
probed-IsWaiting = record { is_half = refl; taken = refl }

open_admits_one_example :
    admitted (answers (requests (7 ∷ 30000000100 ∷ 30000000101 ∷ [])) tripped) ≡ 1
unfolding new
open_admits_one_example =
    open_admits_one (7 ∷ 30000000100 ∷ 30000000101 ∷ []) tripped tripped-IsOpen
