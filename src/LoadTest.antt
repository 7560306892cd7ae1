-- ===== src/LoadTest.antt =====
-- load-tests/bench.go: the benchmark, its workers and what it prints. The HTTP client, the conversion
-- between integers and floating-point numbers, and sort.Slice are parameters; a duration is a number
-- of nanoseconds, and a count of requests is below 2 ^ 63.
pub mod Workers
pub mod Percentiles
pub mod Users
pub mod Requests
mod Tests
use recsys_pipeline.Common.{
  ℕ, zero, suc, ◌+◌, ◌-◌, ◌*◌, ◌<◌, ◌≤◌, ◌≡◌, Bool, true, false, ◌||◌, Option, none, some, List, [],
  ◌∷◌, ◌++◌, replicate, Result, ok, err, panic, length, get_elem?, get_or, set, ltb, leb, ◌==◌,
  if◌then◌else◌,
}
use recsys_pipeline.Common.Int.{ℤ, pos, negsuc, pos_part}
use recsys_pipeline.Common.Float.{Float}
use recsys_pipeline.Common.Text.{Text, text, same}
use recsys_pipeline.Common.Decimal.{pad_zero}
use recsys_pipeline.Strconv.{atoi}

-- The value of an environment variable, or the fallback.
unfoldable pub get_env : Text → Text → Text
get_env v fallback = if same v [] then fallback else v

int_or : ℤ → Option ℤ → ℤ
int_or fallback none = fallback
int_or fallback (some n) = n

-- A value that is no integer counts as none.
unfoldable pub get_env_int : Text → ℤ → ℤ
unfolding int_or
get_env_int v fallback = if same v [] then fallback else int_or fallback (atoi v)

-- What became of one request: not answered, or answered with a status.
pub data Answer : Type 0 where
  no_answer : Answer
  status : ℕ → Answer

unfoldable pub is_failure : Answer → Bool
is_failure no_answer = true
is_failure (status code) = leb 400 code

-- A worker, with the latencies that it has measured: at the top of its loop, in a request, or
-- returned.
pub data Worker : Type 0 where
  idle : List ℕ → Worker
  busy : List ℕ → Worker
  gone : Worker

pub record Bench : Type 0 where
  pub closed : Bool
  pub workers : List Worker
  pub total_reqs : ℕ
  pub total_errors : ℕ
  pub all_latencies : List ℕ

-- `for i := range vus`, which starts none for a negative number
unfoldable pub started : ℤ → Bench
started vus = record {
  closed = false;
  workers = replicate (pos_part vus) (idle []);
  total_reqs = 0;
  total_errors = 0;
  all_latencies = [];
}

-- The end of one round of a worker.
unfoldable pub completed : ℕ → List ℕ → ℕ → Answer → Bench → Bench
unfolding is_failure
completed i ls lat a s = record s {
  workers = set s.workers i (idle (ls ++ lat ∷ []));
  total_reqs = s.total_reqs + 1;
  total_errors = if is_failure a then s.total_errors + 1 else s.total_errors;
}

-- A step of the timer or of the worker with index `i`.
pub data Step : Bench → Bench → Type 0 where
  close : (s : Bench) → s.closed ≡ false → Step s (record s { closed = true })
  begin :
      (s : Bench) (i : ℕ) (ls : List ℕ)
      → s.closed ≡ false
      → get_elem? s.workers i ≡ some (idle ls)
      → Step s (record s { workers = set s.workers i (busy ls) })
  complete :
      (s : Bench) (i : ℕ) (ls : List ℕ) (lat : ℕ) (a : Answer)
      → get_elem? s.workers i ≡ some (busy ls)
      → Step s (completed i ls lat a s)
  stop :
      (s : Bench) (i : ℕ) (ls : List ℕ)
      → s.closed ≡ true
      → get_elem? s.workers i ≡ some (idle ls)
      → Step s (record s { workers = set s.workers i gone; all_latencies = s.all_latencies ++ ls })

pub data Steps (s : Bench) : ℕ → Bench → Type 0 where
  here : Steps s zero s
  next : {k : ℕ} {t u : Bench} → Steps s k t → Step t u → Steps s (suc k) u

pub record BenchResult : Type 0 where
  pub total_requests : ℕ
  pub errors : ℕ
  pub latencies : List ℕ
  pub elapsed : ℕ

-- What `runBenchmark` returns behind `wg.Wait`.
unfoldable pub result_of : ℕ → Bench → BenchResult
result_of elapsed s = record {
  total_requests = s.total_reqs;
  errors = s.total_errors;
  latencies = s.all_latencies;
  elapsed = elapsed;
}

-- `int(float64(n) * p)`, by the percentage, and `elapsed.Seconds()`.
pub record Conversions (F : Type 0) : Type 0 where
  pub scaled : ℕ → ℕ → ℕ
  pub seconds : ℕ → F
  pub sort_slice : List ℕ → List ℕ

-- The index is in range where the list is not empty.
unfoldable pub percentile : (ℕ → ℕ) → List ℕ → ℕ
percentile scale sorted =
    if length sorted == 0
    then 0
    else let idx = scale (length sorted) in
      get_or sorted (if leb (length sorted) idx then length sorted - 1 else idx) 0

pub record Report (F : Type 0) : Type 0 where
  pub rps : F
  pub error_rate : F
  pub p50 : ℕ
  pub p95 : ℕ
  pub p99 : ℕ
  pub max_lat : ℕ

pub record Analysis (F : Type 0) : Type 0 where
  pub avg_rps : F
  pub peak_rps : F
  pub rec_rps : F
  pub evt_rps : F
  pub rec_instances : F
  pub evt_instances : F
  pub rec_p99 : ℕ
  pub fast_enough : Bool
  pub few_errors : Bool
  pub error_rate : F

-- `s[len(s)-1]`
unfoldable pub last_of : List ℕ → Result ℕ
last_of [] = panic
last_of (x ∷ []) = ok x
last_of (x ∷ y ∷ xs) = last_of (y ∷ xs)

module _ {F : Type 0} ⦃f : Float F⦄ (c : Conversions F) where
  abbrev float_of : ℕ → F
  float_of n = f.decimal (pos n) 0

  unfoldable pub report_of : BenchResult → List ℕ → ℕ → Report F
  unfolding percentile
  report_of r sorted max_lat = record {
    rps = f.div (float_of r.total_requests) (c.seconds r.elapsed);
    error_rate =
        f.mul (f.div (float_of r.errors) (float_of r.total_requests)) (f.decimal (pos 100) 0);
    p50 = percentile (λ n. c.scaled n 50) sorted;
    p95 = percentile (λ n. c.scaled n 95) sorted;
    p99 = percentile (λ n. c.scaled n 99) sorted;
    max_lat = max_lat;
  }

  reported : BenchResult → List ℕ → Result ℕ → Result (Report F)
  unfolding report_of
  reported r sorted (ok max_lat) = ok (report_of r sorted max_lat)
  reported r sorted (err e) = err e
  reported r sorted panic = panic

  -- What `printResult` prints.
  unfoldable pub print_result : BenchResult → Result (Report F)
  unfolding reported last_of
  print_result r = let sorted = c.sort_slice r.latencies in reported r sorted (last_of sorted)

  -- What `analyzeScalability` prints: the rates needed and measured, the instances for the peak, and
  -- whether the 99th percentile and the errors are in their bounds.
  unfoldable pub analyze_scalability : BenchResult → BenchResult → Analysis F
  unfolding percentile
  analyze_scalability rec_result evt_result =
      let rec_rps = f.div (float_of rec_result.total_requests) (c.seconds rec_result.elapsed) in
      let evt_rps = f.div (float_of evt_result.total_requests) (c.seconds evt_result.elapsed) in
      let avg_rps = f.div (f.mul (float_of 50000000) (float_of 20)) (float_of 86400) in
      let peak_rps = f.mul avg_rps (float_of 10) in
      let rec_p99 = percentile (λ n. c.scaled n 99) (c.sort_slice rec_result.latencies) in
      let error_rate =
        f.mul (f.div (float_of rec_result.errors) (float_of rec_result.total_requests))
          (float_of 100) in
      record {
        avg_rps = avg_rps;
        peak_rps = peak_rps;
        rec_rps = rec_rps;
        evt_rps = evt_rps;
        rec_instances = f.div peak_rps rec_rps;
        evt_instances = f.div peak_rps evt_rps;
        rec_p99 = rec_p99;
        fast_enough = ltb rec_p99 (200 * 1000000);
        few_errors = f.lt error_rate (float_of 1);
        error_rate = error_rate;
      }

-- The user that a request of the recommendation API is for, by the number that is drawn.
unfoldable pub bench_user : ℕ → Text
bench_user n = text "u_" ++ pad_zero 6 n
