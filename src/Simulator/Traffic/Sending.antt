-- ===== src/Simulator/Traffic/Sending.antt =====
-- The goroutines of the simulator: how many send at a time, that they come to an end, and what they
-- have counted then.
use recsys_pipeline.Common.{ℕ, suc, ◌+◌, ◌-◌, ◌*◌, ◌<◌, ◌≤◌, ◌≡◌, ◌⊎◌, arith, inl, inr}
use native.Mathlib.Decide.{dec_lt}
use recsys_pipeline.Simulator.Traffic.{
  Run, idle, not_encoded, count, Step, Steps, IsComplete, add, start, finish, release, leave, here,
  next,
}

-- The semaphore holds who sends and who has counted; every goroutine is in one place; and every
-- event is counted once.
pub record IsValid (n c : ℕ) (s : Run) : Type 0 where
  pub in_turn : s.started ≤ s.added
  pub one_ahead : s.added ≤ s.started + 1
  pub no_more : s.added ≤ n
  pub within : s.sending + s.counted ≤ c
  pub placed : s.sending + s.counted + s.released + s.done ≡ s.started
  pub totalled : s.sent + s.failures ≡ s.counted + s.released + s.done

pub idle-IsValid : (n c : ℕ) → IsValid n c idle
idle-IsValid n c = omega arith

pub Step-IsValid : {n c : ℕ} {s t : Run} → Step n c s t → IsValid n c s → IsValid n c t
unfolding count
Step-IsValid (add s p q) v = ground arith
Step-IsValid (start s p q) v = ground arith
Step-IsValid (finish s o p) v = ground arith
Step-IsValid (release s p) v = ground arith
Step-IsValid (leave s p) v = ground arith

pub Steps-IsValid : {n c : ℕ} {s t : Run} {k : ℕ} → Steps n c s k t → IsValid n c s → IsValid n c t
Steps-IsValid here v = v
Steps-IsValid (next r st) v = Step-IsValid st (Steps-IsValid r v)

-- What is left to do.
abbrev to_do : ℕ → Run → ℕ
to_do n s = (n - s.added) + 4 * (n - s.started) + 3 * s.sending + 2 * s.counted + s.released

Step-to_do : {n c : ℕ} {s t : Run} → Step n c s t → IsValid n c s → suc (to_do n t) ≡ to_do n s
unfolding count
Step-to_do (add s p q) v = ground arith
Step-to_do (start s p q) v = ground arith
Step-to_do (finish s o p) v = ground arith
Step-to_do (release s p) v = ground arith
Step-to_do (leave s p) v = ground arith

Steps-to_do :
    {n c : ℕ} {s t : Run} {k : ℕ} → Steps n c s k t → IsValid n c s → k + to_do n t ≡ to_do n s
Steps-to_do here v = omega arith
Steps-to_do (next r st) v = omega (arith, Steps-to_do r v, Step-to_do st (Steps-IsValid r v))

complete :
    (n c : ℕ) (s : Run) → IsValid n c s → to_do n s ≡ 0 → IsComplete n s × (s.sent + s.failures ≡ n)
complete n c s v h = omega arith

can_step : (n c : ℕ) (s : Run) → 0 < c → IsValid n c s → 0 < to_do n s → (t : Run) × Step n c s t
can_step n c s room v h = elim (dec_lt 0 s.sending) [
  | yes p ↦ (_, finish s not_encoded p)
  | no p ↦ elim (dec_lt 0 s.counted) [
    | yes q ↦ (_, release s q)
    | no q ↦ elim (dec_lt 0 s.released) [
      | yes r ↦ (_, leave s r)
      | no r ↦ elim (dec_lt s.started s.added) [
        | yes a ↦ (_, start s a (omega arith))
        | no a ↦ (_, add s (omega arith) (omega arith))
      ]
    ]
  ]
]

-- With room for one at least, the goroutines take 5 steps for each event in whatever order they
-- run. Until then, a step can be taken; when no more are left, `wg.Wait` has returned, and the two
-- counts add up to the number of events. At no time do more goroutines send than there is room for.
pub sending_ends :
    {n c : ℕ} {t : Run} {k : ℕ}
    → 0 < c
    → Steps n c idle k t
    → (t.sending ≤ c)
      × (((k < 5 * n) × ((u : Run) × Step n c t u))
          ⊎ ((k ≡ 5 * n) × IsComplete n t × (t.sent + t.failures ≡ n)))
sending_ends {n} {c} {t} {k} room r =
    let v = Steps-IsValid r (idle-IsValid n c) in
    let left : k + to_do n t ≡ 5 * n = omega (arith, Steps-to_do r (idle-IsValid n c)) in
    elim (dec_lt 0 (to_do n t)) [
      | yes p ↦ (omega (arith, v.within), inl (omega (arith, left), can_step n c t room v p))
      | no p ↦
          let end = complete n c t v (omega arith) in
          (omega (arith, v.within), inr (omega (arith, left), end.0, end.1))
    ]

one_more :
    {n k : ℕ} {t u : Run}
    → Step n 0 t u
    → (t.started ≡ 0) × (t.added ≡ k) × (t.sending + t.counted + t.released + t.done ≡ 0) × (k ≤ 1)
    → (u.started ≡ 0)
      × (u.added ≡ suc k)
      × (u.sending + u.counted + u.released + u.done ≡ 0)
      × (suc k ≤ 1)
one_more (add s p q) h = omega arith
one_more (start s p q) h = absurd (omega arith)
one_more (finish s o p) h = absurd (omega arith)
one_more (release s p) h = absurd (omega arith)
one_more (leave s p) h = absurd (omega arith)

unstarted :
    {n : ℕ} {t : Run} {k : ℕ}
    → Steps n 0 idle k t
    → (t.started ≡ 0) × (t.added ≡ k) × (t.sending + t.counted + t.released + t.done ≡ 0) × (k ≤ 1)
unstarted here = omega arith
unstarted (next r st) = one_more st (unstarted r)

-- With no room, at most one step is taken: the program hangs, unless there is nothing to send.
pub no_room_hangs :
    {n : ℕ} {t : Run} {k : ℕ} → 0 < n → Steps n 0 idle k t → (k ≤ 1) × ¬ IsComplete n t
no_room_hangs h r = let u = unstarted r in (u.3, λ e. omega arith)
