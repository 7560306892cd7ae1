-- ===== src/LoadTest/Workers.antt =====
-- The workers of the benchmark: what is counted, and that they return when the time is over.
use recsys_pipeline.Common.{
  ℕ, zero, suc, ◌+◌, ◌*◌, ◌≤◌, ◌≡◌, ◌⊎◌, refl, ap, true, some, List, [], ◌∷◌, ◌++◌, replicate,
  length, length-append, get_elem?, set, All, arith, inl, inr,
}
use recsys_pipeline.Common.Int.{ℤ, pos_part}
use recsys_pipeline.LoadTest.{
  no_answer, Worker, idle, busy, gone, Bench, started, completed, Step, close, begin, complete,
  stop, Steps, here, next, result_of,
}

-- What a worker has measured and not yet handed over, and how far it is from its return.
abbrev held : Worker → ℕ
held (idle ls) = length ls
held (busy ls) = length ls
held gone = 0

abbrev distance : Worker → ℕ
distance (idle ls) = 1
distance (busy ls) = 2
distance gone = 0

abbrev sum_of : (Worker → ℕ) → List Worker → ℕ
sum_of f [] = 0
sum_of f (w ∷ ws) = f w + sum_of f ws

sum_of-set :
    (f : Worker → ℕ) (ws : List Worker) (i : ℕ) (w w' : Worker)
    → get_elem? ws i ≡ some w
    → sum_of f (set ws i w') + f w ≡ sum_of f ws + f w'
sum_of-set f [] i w w' e = absurd (ground arith)
sum_of-set f (x ∷ ws) zero w w' e =
    let same : f x ≡ f w = ap f (let eq : x ≡ w = cc in eq) in omega arith
sum_of-set f (x ∷ ws) (suc i) w w' e = omega (arith, sum_of-set f ws i w w' e)

-- Every request is counted once, and its latency is held by a worker or handed over.
pub record IsCounted (s : Bench) : Type 0 where
  pub every_request : length s.all_latencies + sum_of held s.workers ≡ s.total_reqs
  pub some_failed : s.total_errors ≤ s.total_reqs

Step-IsCounted : {s t : Bench} → Step s t → IsCounted s → IsCounted t
unfolding completed
Step-IsCounted (close s e) c = record {
  every_request = c.every_request;
  some_failed = c.some_failed;
}
Step-IsCounted (begin s i ls e at) c = record {
  every_request =
      omega (arith, c.every_request, sum_of-set held s.workers i (idle ls) (busy ls) at);
  some_failed = c.some_failed;
}
Step-IsCounted (complete s i ls lat a at) c = record {
  every_request = omega (
    arith,
    c.every_request,
    length-append ls (lat ∷ []),
    sum_of-set held s.workers i (busy ls) (idle (ls ++ lat ∷ [])) at,
  );
  some_failed = ground (arith, c.some_failed);
}
Step-IsCounted (stop s i ls e at) c = record {
  every_request = omega (
    arith,
    c.every_request,
    length-append s.all_latencies ls,
    sum_of-set held s.workers i (idle ls) gone at,
  );
  some_failed = c.some_failed;
}

Steps-IsCounted : {s t : Bench} {k : ℕ} → Steps s k t → IsCounted s → IsCounted t
Steps-IsCounted here c = c
Steps-IsCounted (next r st) c = Step-IsCounted st (Steps-IsCounted r c)

nothing_held : (n : ℕ) → sum_of held (replicate n (idle [])) ≡ 0
nothing_held zero = refl
nothing_held (suc n) = omega (arith, nothing_held n)

started-IsCounted : (vus : ℤ) → IsCounted (started vus)
unfolding started
started-IsCounted vus = record {
  every_request = omega (arith, nothing_held (pos_part vus));
  some_failed = omega arith;
}

-- `wg.Wait` has returned.
abbrev pub AllGone : Bench → Type 0
AllGone s = All (λ w. w ≡ gone) s.workers

held-AllGone : (ws : List Worker) → All (λ w. w ≡ gone) ws → sum_of held ws ≡ 0
held-AllGone [] h = refl
held-AllGone (w ∷ ws) h = let e : held w ≡ 0 = ap held h.0 in omega (arith, held-AllGone ws h.1)

-- When all workers have returned, in whatever order they ran, the result has one latency for each
-- request, and no more errors than requests.
pub result_of-IsWhole :
    (vus : ℤ) {k : ℕ} {s : Bench} (elapsed : ℕ)
    → Steps (started vus) k s
    → AllGone s
    → (length (result_of elapsed s).latencies ≡ (result_of elapsed s).total_requests)
      × ((result_of elapsed s).errors ≤ (result_of elapsed s).total_requests)
unfolding result_of
result_of-IsWhole vus {k} {s} elapsed r g =
    let c = Steps-IsCounted r (started-IsCounted vus) in
    (omega (arith, c.every_request, held-AllGone s.workers g), c.some_failed)

-- When the time is over, every step brings a worker nearer to its return.
Step-distance :
    {s t : Bench}
    → Step s t
    → s.closed ≡ true
    → (t.closed ≡ true) × (suc (sum_of distance t.workers) ≡ sum_of distance s.workers)
unfolding completed
Step-distance (close s e) c = absurd (ground arith)
Step-distance (begin s i ls e at) c = absurd (ground arith)
Step-distance (complete s i ls lat a at) c =
    (c, omega (arith, sum_of-set distance s.workers i (busy ls) (idle (ls ++ lat ∷ [])) at))
Step-distance (stop s i ls e at) c =
    (c, omega (arith, sum_of-set distance s.workers i (idle ls) gone at))

Steps-distance :
    {s t : Bench} {k : ℕ}
    → Steps s k t
    → s.closed ≡ true
    → (t.closed ≡ true) × (k + sum_of distance t.workers ≡ sum_of distance s.workers)
Steps-distance here c = (c, omega arith)
Steps-distance (next r st) c =
    let before = Steps-distance r c in
    let now = Step-distance st before.0 in (now.0, omega (arith, before.1, now.1))

distance-le : (ws : List Worker) → sum_of distance ws ≤ 2 * length ws
distance-le [] = omega arith
distance-le (idle ls ∷ ws) = omega (arith, distance-le ws)
distance-le (busy ls ∷ ws) = omega (arith, distance-le ws)
distance-le (gone ∷ ws) = omega (arith, distance-le ws)

-- The first worker that has not returned.
data Someone (ws : List Worker) : Type 0 where
  at_top : (i : ℕ) (ls : List ℕ) → get_elem? ws i ≡ some (idle ls) → Someone ws
  in_request : (i : ℕ) (ls : List ℕ) → get_elem? ws i ≡ some (busy ls) → Someone ws

later : {w : Worker} {ws : List Worker} → Someone ws → Someone (w ∷ ws)
later (at_top i ls e) = at_top (suc i) ls e
later (in_request i ls e) = in_request (suc i) ls e

someone_or_none : (ws : List Worker) → Someone ws ⊎ All (λ w. w ≡ gone) ws
someone_or_none [] = inr tt
someone_or_none (idle ls ∷ ws) = inl (at_top 0 ls refl)
someone_or_none (busy ls ∷ ws) = inl (in_request 0 ls refl)
someone_or_none (gone ∷ ws) = elim (someone_or_none ws) [
  | inl s ↦ inl (later s)
  | inr h ↦ inr (refl, h)
]

can_step : (s : Bench) → s.closed ≡ true → Someone s.workers → (t : Bench) × Step s t
can_step s c (at_top i ls e) = (_, stop s i ls c e)
can_step s c (in_request i ls e) = (_, complete s i ls 0 no_answer e)

-- Once the time is over, the workers take two steps each at most, whatever the requests in flight
-- are answered; and as long as one has not returned, a step can be taken.
pub workers_return :
    {s t : Bench} {k : ℕ}
    → s.closed ≡ true
    → Steps s k t
    → (k ≤ 2 * length s.workers) × (((u : Bench) × Step t u) ⊎ AllGone t)
workers_return {s} {t} {k} c r =
    let d = Steps-distance r c in
    (
      omega (arith, d.1, distance-le s.workers),
      elim (someone_or_none t.workers) [ inl w ↦ inl (can_step t d.0 w) | inr h ↦ inr h ],
    )
