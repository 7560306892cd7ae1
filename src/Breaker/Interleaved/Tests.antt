-- ===== src/Breaker/Interleaved/Tests.antt =====
-- Three goroutines on an open breaker whose timeout is over.
use recsys_pipeline.Common.{ℕ, ◌+◌, ◌≤◌, ◌≡◌, refl, true, List, [], ◌∷◌}
use recsys_pipeline.Common.Text.{text}
use recsys_pipeline.Breaker.{Breaker, new, opened, half_open, allow, record_success, record_failure}
use recsys_pipeline.Breaker.Interleaved.{
  Place, allowing, answered, succeeding, failing, stamping, finished, run,
}
use recsys_pipeline.Breaker.Interleaved.Alone.{shared, alone, alone-atomic}
use recsys_pipeline.Breaker.Interleaved.Probes.{run-probes}

abbrev due : Breaker
unfolding new
due = record (new (text "triton") 5 10) { state = opened; fail_count = 5 }

-- The first request wins the transition and pauses before it offers the probe; a late failure opens
-- the breaker again, and the second request wins another transition and takes its probe; then the
-- first offers and takes a probe too.
abbrev schedule : List (ℕ × ℕ)
schedule =
    (0, 10)
    ∷ (0, 10)
    ∷ (0, 10)
    ∷ (2, 11)
    ∷ (2, 11)
    ∷ (2, 11)
    ∷ (1, 12)
    ∷ (1, 12)
    ∷ (1, 12)
    ∷ (1, 12)
    ∷ (1, 12)
    ∷ (0, 13)
    ∷ (0, 13)
    ∷ []

abbrev goroutines : List Place
goroutines = allowing ∷ allowing ∷ failing ∷ []

-- Two probes are out at the same time in the half-open state.
two_probes :
    let (ps, s) = run schedule goroutines (shared due) in
    (ps ≡ answered true ∷ answered true ∷ stamping ∷ [])
    × (s.breaker.state ≡ half_open)
    × (s.probes ≡ 2)
unfolding run new
two_probes = (refl, refl, refl)

run-probes_example :
    let s' = (run schedule goroutines (shared due)).1 in s'.probes + 0 ≤ 0 + s'.transitions
unfolding new
run-probes_example = run-probes schedule goroutines (shared due) refl refl

alone-atomic_example :
    ((alone 10 allowing due).0 ≡ answered (allow 10 due).1 ∷ [])
    × ((alone 10 allowing due).1.breaker ≡ (allow 10 due).0)
    × ((alone 10 succeeding due).0 ≡ finished ∷ [])
    × ((alone 10 succeeding due).1.breaker ≡ record_success due)
    × ((alone 10 failing due).0 ≡ finished ∷ [])
    × ((alone 10 failing due).1.breaker ≡ record_failure 10 due)
alone-atomic_example = alone-atomic 10 due
