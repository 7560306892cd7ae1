-- ===== src/Breaker/Interleaved/Alone.antt =====
-- A method whose goroutine runs alone is the one atomic call of the sequential breaker.
use recsys_pipeline.Common.{ℕ, ◌≡◌, List, [], ◌∷◌, replicate, arith}
use recsys_pipeline.Breaker.{Breaker, allow, record_success, record_failure}
use recsys_pipeline.Breaker.Interleaved.{
  Place, allowing, answered, succeeding, failing, finished, Shared, run,
}

abbrev pub shared : Breaker → Shared
shared b = record { breaker = b; transitions = 0; probes = 0 }

-- Five steps are enough for each method; a goroutine at the end of its method stays there.
abbrev pub alone : ℕ → Place → Breaker → List Place × Shared
alone now p b = run (replicate 5 (0, now)) (p ∷ []) (shared b)

-- Without other goroutines each method ends, with the answer and the breaker of the atomic call at
-- the same time.
pub alone-atomic :
    (now : ℕ) (b : Breaker)
    → ((alone now allowing b).0 ≡ answered (allow now b).1 ∷ [])
      × ((alone now allowing b).1.breaker ≡ (allow now b).0)
      × ((alone now succeeding b).0 ≡ finished ∷ [])
      × ((alone now succeeding b).1.breaker ≡ record_success b)
      × ((alone now failing b).0 ≡ finished ∷ [])
      × ((alone now failing b).1.breaker ≡ record_failure now b)
unfolding run allow record_success record_failure
alone-atomic now b =
    (ground arith, ground arith, ground arith, ground arith, ground arith, ground arith)
