-- ===== src/Breaker/Probing.antt =====
-- How a breaker that is open lets one probe through, and what the probe's outcome does.
use recsys_pipeline.Common.{
  ℕ, suc, ◌+◌, ◌≡◌, refl, Bool, true, false, List, [], ◌∷◌, min, arith, leb, if◌then◌else◌,
  Bool-cases, inl, inr,
}
use recsys_pipeline.Breaker.{
  Breaker, closed, opened, half_open, Call, allows, succeeds, fails, step,
}
use recsys_pipeline.Breaker.Closing.{after, answers}

-- Between two calls no probe is on offer: the call that offers it also takes it.
pub step-at_rest : (c : Call) (b : Breaker) → b.probing ≡ false → (step c b).0.probing ≡ false
unfolding step
step-at_rest (allows t) b h = ground arith
step-at_rest succeeds b h = ground arith
step-at_rest (fails t) b h = ground arith

abbrev pub admitted : List Bool → ℕ
admitted [] = 0
admitted (true ∷ xs) = suc (admitted xs)
admitted (false ∷ xs) = admitted xs

-- Requests at the given times.
abbrev pub requests : List ℕ → List Call
requests [] = []
requests (t ∷ ts) = allows t ∷ requests ts

-- The breaker's probe is out.
pub record IsWaiting (b : Breaker) : Type 0 where
  pub is_half : b.state ≡ half_open
  pub taken : b.probing ≡ false

step-waiting : (t : ℕ) (b : Breaker) → IsWaiting b → step (allows t) b ≡ (b, false ∷ [])
unfolding step
step-waiting t b h = ground arith

-- While the probe is out every request is refused, at any time, and nothing changes.
pub waiting_refuses :
    (ts : List ℕ) (b : Breaker)
    → IsWaiting b
    → (admitted (answers (requests ts) b) ≡ 0) × (after (requests ts) b ≡ b)
waiting_refuses [] b h = (refl, refl)
waiting_refuses (t ∷ ts) b h =
    let (none_in, same_b) = waiting_refuses ts b h in
    (rw (step-waiting t b h) none_in, rw (step-waiting t b h, after) same_b)

pub record IsOpen (b : Breaker) : Type 0 where
  pub is_open : b.state ≡ opened
  pub offered : b.probing ≡ false

abbrev pub deadline : Breaker → ℕ
deadline b = b.last_tripped + b.reset_timeout

step-early :
    (t : ℕ) (b : Breaker)
    → IsOpen b
    → leb (deadline b) t ≡ false
    → step (allows t) b ≡ (b, false ∷ [])
unfolding step
step-early t b h e = ground arith

step-due :
    (t : ℕ) (b : Breaker)
    → IsOpen b
    → leb (deadline b) t ≡ true
    → (IsWaiting (step (allows t) b).0) × ((step (allows t) b).1 ≡ true ∷ [])
unfolding step
step-due t b h e = ground arith

-- How many of the clock readings have reached the deadline.
abbrev pub due : ℕ → List ℕ → ℕ
due d [] = 0
due d (t ∷ ts) = if leb d t then suc (due d ts) else due d ts

-- Of any requests that an open breaker sees, without reports in between, it admits exactly one if
-- one comes after the reset timeout, and otherwise none.
pub open_admits_one :
    (ts : List ℕ) (b : Breaker)
    → IsOpen b
    → admitted (answers (requests ts) b) ≡ min 1 (due (deadline b) ts)
open_admits_one [] b h = omega arith
open_admits_one (t ∷ ts) b h = elim (Bool-cases (leb (deadline b) t)) [
  | inl e ↦
      let (out, yes_one) = step-due t b h e in
      rw (e, yes_one)
        (let (none_more, _) = waiting_refuses ts (step (allows t) b).0 out in
          omega (arith, none_more))
  | inr e ↦ rw (e, step-early t b h e) (open_admits_one ts b h)
]

-- While the probe is out, a reported success closes the breaker with no failures counted, and a
-- reported failure opens it again from that moment.
pub probe_outcome :
    (t : ℕ) (b : Breaker)
    → IsWaiting b
    → ((step succeeds b).0.state ≡ closed)
      × ((step succeeds b).0.fail_count ≡ 0)
      × IsOpen (step (fails t) b).0
      × ((step (fails t) b).0.last_tripped ≡ t)
unfolding step
probe_outcome t b h = (ground arith, ground arith, ground arith, ground arith)
