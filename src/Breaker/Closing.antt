-- ===== src/Breaker/Closing.antt =====
-- How a breaker that is closed trips, in the number of its failures.
use recsys_pipeline.Common.{
  ℕ, suc, ◌+◌, ◌^◌, ◌<◌, ◌≡◌, refl, Bool, true, List, [], ◌∷◌, ◌++◌, arith,
}
use recsys_pipeline.Breaker.{Breaker, closed, opened, Call, allows, succeeds, fails, step}

-- The state after a list of calls.
abbrev pub after : List Call → Breaker → Breaker
after [] b = b
after (c ∷ cs) b = after cs (step c b).0

-- What the calls of Allow answered, in order.
abbrev pub answers : List Call → Breaker → List Bool
answers [] b = []
answers (c ∷ cs) b = (step c b).1 ++ answers cs (step c b).0

abbrev pub failures : List Call → ℕ
failures [] = 0
failures (allows t ∷ cs) = failures cs
failures (succeeds ∷ cs) = failures cs
failures (fails t ∷ cs) = suc (failures cs)

abbrev pub AllTrue : List Bool → Type 0
AllTrue [] = Unit
AllTrue (x ∷ xs) = (x ≡ true) × AllTrue xs

-- Closed with `n` failures counted.
pub record IsClosed (n : ℕ) (b : Breaker) : Type 0 where
  pub is_closed : b.state ≡ closed
  pub counted : b.fail_count ≡ n
  pub positive : b.threshold < 2 ^ 63

step-allows : (t n : ℕ) (b : Breaker) → IsClosed n b → step (allows t) b ≡ (b, true ∷ [])
unfolding step
step-allows t n b h = ground arith

step-succeeds : (n : ℕ) (b : Breaker) → IsClosed n b → IsClosed n (step succeeds b).0
unfolding step
step-succeeds n b h = ground arith

pub step-threshold : (c : Call) (b : Breaker) → (step c b).0.threshold ≡ b.threshold
unfolding step
step-threshold c b = ground arith

pub step-fails :
    (t n : ℕ) (b : Breaker)
    → n + 1 < b.threshold
    → IsClosed n b
    → IsClosed (suc n) (step (fails t) b).0
unfolding step
step-fails t n b lt h = ground arith

step-succeeds_answers : (b : Breaker) → (step succeeds b).1 ≡ []
unfolding step
step-succeeds_answers b = refl

step-fails_answers : (t : ℕ) (b : Breaker) → (step (fails t) b).1 ≡ []
unfolding step
step-fails_answers t b = refl

plus_suc : (n m : ℕ) → n + suc m ≡ suc n + m
plus_suc n m = omega arith

-- Fewer failures than the threshold, mixed with any other calls, leave a closed breaker closed with
-- their number, and every request is let through. The threshold must be below 2 ^ 63.
pub IsClosed-below_threshold :
    (n : ℕ) (cs : List Call) (b : Breaker)
    → IsClosed n b
    → n + failures cs < b.threshold
    → (IsClosed (n + failures cs) (after cs b)) × AllTrue (answers cs b)
IsClosed-below_threshold n [] b h lt = (ground arith, tt)
IsClosed-below_threshold n (allows t ∷ cs) b h lt =
    rw (step-allows t n b h)
      (let (still, yes_all) = IsClosed-below_threshold n cs b h lt in (still, (refl, yes_all)))
IsClosed-below_threshold n (succeeds ∷ cs) b h lt = rw (step-succeeds_answers b) (
    IsClosed-below_threshold n cs (step succeeds b).0 (step-succeeds n b h)
      (omega (arith, step-threshold succeeds b)))
IsClosed-below_threshold n (fails t ∷ cs) b h lt =
    rw (step-fails_answers t b, plus_suc n (failures cs))
      (IsClosed-below_threshold (suc n) cs (step (fails t) b).0 (step-fails t n b (omega arith) h)
        (omega (arith, step-threshold (fails t) b)))

zero_plus : (n : ℕ) → 0 + n ≡ n
zero_plus n = omega arith

pub after-threshold : (cs : List Call) (b : Breaker) → (after cs b).threshold ≡ b.threshold
after-threshold [] b = refl
after-threshold (c ∷ cs) b = omega (arith, after-threshold cs (step c b).0, step-threshold c b)

-- The failure that reaches the threshold opens the breaker and takes down its time.
pub trips_at_threshold :
    (n t : ℕ) (b : Breaker)
    → IsClosed n b
    → n + 1 ≡ b.threshold
    → ((step (fails t) b).0.state ≡ opened) × ((step (fails t) b).0.last_tripped ≡ t)
unfolding step
trips_at_threshold n t b h e = ground arith

-- A closed breaker without failures trips at the failure that makes their total reach its
-- threshold, whatever successes and requests came before; these were all let through, and the time
-- of the trip is that of the failure. The threshold must be below 2 ^ 63.
pub trips_after :
    (cs : List Call) (t : ℕ) (b : Breaker)
    → IsClosed 0 b
    → failures cs + 1 ≡ b.threshold
    → let b' = (step (fails t) (after cs b)).0 in
      AllTrue (answers cs b) × (b'.state ≡ opened) × (b'.last_tripped ≡ t)
trips_after cs t b h e =
    let (still, answered) = IsClosed-below_threshold 0 cs b h (omega arith) in
    let (o, at) =
      trips_at_threshold (failures cs) t (after cs b) (rw zero_plus at still)
        (omega (arith, after-threshold cs b)) in
    (answered, o, at)
