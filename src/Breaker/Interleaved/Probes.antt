-- ===== src/Breaker/Interleaved/Probes.antt =====
-- How many probes any interleaving can let through.
use recsys_pipeline.Common.{ℕ, zero, suc, ◌+◌, ◌≤◌, ◌≡◌, Bool, true, false, List, [], ◌∷◌, arith}
use recsys_pipeline.Breaker.Interleaved.{Place, swapped, Shared, move, step_at, run}

-- A goroutine that won a transition and has not yet offered the probe.
abbrev pub pending : Place → ℕ
pending swapped = 1
pending _ = 0

abbrev pub all_pending : List Place → ℕ
all_pending [] = 0
all_pending (p ∷ ps) = pending p + all_pending ps

abbrev pub offered : Bool → ℕ
offered true = 1
offered false = 0

-- Probes that were let through, and the one that is on offer.
abbrev pub spent : Shared → ℕ
spent s = s.probes + offered s.breaker.probing

move-spent :
    (now : ℕ) (p : Place) (s : Shared)
    → let (p', s') = move now p s in
      spent s' + pending p' + s.transitions ≤ spent s + pending p + s'.transitions
unfolding move
move-spent now p s = ground arith

step_at-spent :
    (i now : ℕ) (ps : List Place) (s : Shared)
    → let (ps', s') = step_at i now ps s in
      spent s' + all_pending ps' + s.transitions ≤ spent s + all_pending ps + s'.transitions
unfolding step_at
step_at-spent i now [] s = omega arith
step_at-spent zero now (p ∷ ps) s = omega (arith, move-spent now p s)
step_at-spent (suc i) now (p ∷ ps) s = omega (arith, step_at-spent i now ps s)

run-spent :
    (steps : List (ℕ × ℕ)) (ps : List Place) (s : Shared)
    → let (ps', s') = run steps ps s in
      spent s' + all_pending ps' + s.transitions ≤ spent s + all_pending ps + s'.transitions
unfolding run
run-spent [] ps s = omega arith
run-spent ((i, now) ∷ steps) ps s =
    let (ps', s') = step_at i now ps s in
    omega (arith, step_at-spent i now ps s, run-spent steps ps' s')

-- However any number of goroutines interleave, the probes that are let through are no more than the
-- transitions from open to half-open, if no probe is on offer and no goroutine has won a transition
-- at the start.
pub run-probes :
    (steps : List (ℕ × ℕ)) (ps : List Place) (s : Shared)
    → s.breaker.probing ≡ false
    → all_pending ps ≡ 0
    → let s' = (run steps ps s).1 in s'.probes + s.transitions ≤ s.probes + s'.transitions
run-probes steps ps s off none_pending = ground (arith, run-spent steps ps s)
