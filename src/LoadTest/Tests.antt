-- ===== src/LoadTest/Tests.antt =====
-- A benchmark of two workers, and what it prints.
use recsys_pipeline.Common.{
  ℕ, ◌+◌, ◌*◌, ◌/◌, ◌≤◌, ◌≡◌, ◌⊎◌, refl, true, false, List, [], ◌∷◌, length, All, ok, panic, arith,
  ltb, leb, Bool-cases, inl, inr,
}
use recsys_pipeline.Common.Int.{pos, negsuc, pos_part}
use recsys_pipeline.Common.Float.{Float}
use recsys_pipeline.Common.Text.{text, same}
use recsys_pipeline.Strconv.{atoi}
use recsys_pipeline.Sort.{insert, slice_stable}
use recsys_pipeline.Sort.{slice_stable-perm}
use recsys_pipeline.LoadTest.{
  status, Bench, idle, busy, gone, started, Step, Steps, close, begin, complete, stop, here, next,
  BenchResult, result_of, Conversions, Report, print_result, bench_user, get_env_int, completed,
  is_failure,
}
use recsys_pipeline.LoadTest.Workers.{AllGone, result_of-IsWhole, workers_return}
use recsys_pipeline.LoadTest.Percentiles.{IsAscending, IsExact, IsSummary, print_result-IsSummary}
use recsys_pipeline.LoadTest.Requests.{
  fetch, post, event_for, recommend_request, mixed_request, event_request,
}
use recsys_pipeline.Common.Decimal.{pad_zero}

settings :
    (get_env_int (text "250") (pos 100) ≡ pos 250)
    × (get_env_int (text "many") (pos 100) ≡ pos 100)
    × (get_env_int [] (pos 100) ≡ pos 100)
unfolding get_env_int same atoi
settings = (refl, refl, refl)

instance abbrev whole : Float ℕ
whole = record {
  lt = ltb;
  le = leb;
  add = λ a b. a + b;
  mul = λ a b. a * b;
  div = λ a b. a / b;
  decimal = λ m k. pos_part m;
  is_nan = λ x. false;
}

abbrev exactly : Conversions ℕ
exactly = record {
  scaled = λ n p. n * p / 100;
  seconds = λ d. d / 1000000000;
  sort_slice = slice_stable ltb;
}

insert-All : (P : ℕ → Type 0) (x : ℕ) (ys : List ℕ) → P x → All P ys → All P (insert ltb x ys)
unfolding insert
insert-All P x [] h k = (h, tt)
insert-All P x (y ∷ ys) h k = ground (arith, insert-All P x ys h k.1)

below-All : (x y : ℕ) (ys : List ℕ) → x ≤ y → All (λ z. y ≤ z) ys → All (λ z. x ≤ z) ys
below-All x y [] h k = tt
below-All x y (z ∷ ys) h k = (omega (arith, k.0), below-All x y ys h k.1)

insert-IsAscending : (x : ℕ) (ys : List ℕ) → IsAscending ys → IsAscending (insert ltb x ys)
unfolding insert
insert-IsAscending x [] a = (tt, tt)
insert-IsAscending x (y ∷ ys) a = elim (Bool-cases (ltb y x)) [
  | inl e ↦ rw e (insert-All (λ z. y ≤ z) x ys (ground arith) a.0, insert-IsAscending x ys a.1)
  | inr e ↦ rw e ((ground arith, below-All x y ys (ground arith) a.0), a)
]

slice_stable-IsAscending : (xs : List ℕ) → IsAscending (slice_stable ltb xs)
unfolding slice_stable
slice_stable-IsAscending [] = tt
slice_stable-IsAscending (x ∷ xs) =
    insert-IsAscending x (slice_stable ltb xs) (slice_stable-IsAscending xs)

exactly-IsExact : IsExact exactly
exactly-IsExact = record {
  sort_slice-IsAscending = slice_stable-IsAscending;
  sort_slice-perm = λ xs. slice_stable-perm ltb xs;
  scaled_mono = λ n p q h. grind arith;
}

abbrev three_requests : BenchResult
three_requests = record {
  total_requests = 3;
  errors = 1;
  latencies = 30 ∷ 10 ∷ 20 ∷ [];
  elapsed = 1000000000;
}

printed :
    (p : Report ℕ) × (print_result exactly three_requests ≡ ok p)
    × (p.p50 ≡ 20)
    × (p.p99 ≡ 30)
    × (p.max_lat ≡ 30)
unfolding print_result slice_stable
printed = (_, refl, refl, refl, refl)

nothing_printed : print_result exactly (result_of 0 (started (negsuc 0))) ≡ panic
unfolding print_result result_of started slice_stable
nothing_printed = refl

print_result-IsSummary_example :
    ((print_result exactly three_requests ≡ panic) × (three_requests.latencies ≡ []))
    ⊎ ((p : Report ℕ) × (print_result exactly three_requests ≡ ok p)
        × IsSummary three_requests.latencies p)
print_result-IsSummary_example = print_result-IsSummary exactly exactly-IsExact three_requests

-- One worker, which is refused once, and another that has not begun.
abbrev refused_once : Bench
refused_once = record {
  closed = true;
  workers = gone ∷ gone ∷ [];
  total_reqs = 1;
  total_errors = 1;
  all_latencies = 5 ∷ [];
}

abbrev in_flight : Bench
in_flight = record (started (pos 2)) { workers = busy [] ∷ idle [] ∷ []; closed = true }

after_close : Steps in_flight 3 refused_once
unfolding started completed is_failure
after_close =
    next (next (next here (complete _ 0 [] 5 (status 503) refl)) (stop _ 0 (5 ∷ []) refl refl))
      (stop _ 1 [] refl refl)

full_run : Steps (started (pos 2)) 5 refused_once
unfolding started completed is_failure
full_run =
    next
      (next
        (next (next (next here (begin _ 0 [] refl refl)) (close _ refl))
          (complete _ 0 [] 5 (status 503) refl))
        (stop _ 0 (5 ∷ []) refl refl))
      (stop _ 1 [] refl refl)

result_of-IsWhole_example :
    (length (result_of 9 refused_once).latencies ≡ (result_of 9 refused_once).total_requests)
    × ((result_of 9 refused_once).errors ≤ (result_of 9 refused_once).total_requests)
result_of-IsWhole_example = result_of-IsWhole (pos 2) 9 full_run (refl, (refl, tt))

workers_return_example : (3 ≤ 2 * 2) × (((u : Bench) × Step refused_once u) ⊎ AllGone refused_once)
workers_return_example = workers_return {s = in_flight} refl after_close

-- Two requests, with a source that draws 0 and names a session.
first_requests :
    ((recommend_request {σ = ℕ}
        (record { intn = λ n s. (0, s); perm = λ n s. ([], s) })
        (λ p s. (true, s))
        (text "http://api")
        0).0
      ≡ ok (
          fetch (
            text
              "http://api/api/v1/recommend?user_id=u_000000&limit=20&session_id=sess_0000000000")))
    × ((mixed_request {σ = ℕ}
          (record { intn = λ n s. (0, s); perm = λ n s. ([], s) })
          (λ p s. (false, s))
          []
          (text "http://events")
          0).0
        ≡ ok (post (text "http://events/api/v1/events") (event_for (text "click") 0 0)))
unfolding recommend_request mixed_request event_request bench_user pad_zero
first_requests = (refl, refl)
