-- ===== src/LoadTest/Percentiles.antt =====
-- What the benchmark prints of the latencies.
use mathlib.Core.List.{Perm, Mem, mem-cons_self, mem-cons_of_mem}
use mathlib.Core.List.Perm
use native.Mathlib.Bridge.{le_prop}
use recsys_pipeline.Common.{
  ℕ, zero, suc, ◌-◌, ◌<◌, ◌≤◌, ◌≡◌, ◌⊎◌, refl, sym, subst, List, [], ◌∷◌, length, get_or, All, ok,
  panic, arith, inl, inr, leb, if◌then◌else◌,
}
use recsys_pipeline.Common.Permuted.{All-perm}
use recsys_pipeline.Common.Float.{Float}
use recsys_pipeline.LoadTest.{
  BenchResult, Conversions, Report, percentile, last_of, report_of, print_result,
}

-- Each entry is no more than those behind it.
abbrev pub IsAscending : List ℕ → Type 0
IsAscending [] = Unit
IsAscending (x ∷ xs) = All (λ y. x ≤ y) xs × IsAscending xs

-- As sort.Slice is documented, and as a product with a larger factor is larger.
pub record IsExact {F : Type 0} (c : Conversions F) : Type 0 where
  pub sort_slice-IsAscending : (xs : List ℕ) → IsAscending (c.sort_slice xs)
  pub sort_slice-perm : (xs : List ℕ) → Perm (c.sort_slice xs) xs
  pub scaled_mono : (n p q : ℕ) → p ≤ q → c.scaled n p ≤ c.scaled n q

All-get_or : (P : ℕ → Type 0) (xs : List ℕ) (i : ℕ) → All P xs → i < length xs → P (get_or xs i 0)
All-get_or P [] i h l = absurd (omega arith)
All-get_or P (x ∷ xs) zero h l = h.0
All-get_or P (x ∷ xs) (suc i) h l = All-get_or P xs i h.1 (omega arith)

get_or_mono :
    (xs : List ℕ) (i j : ℕ) → IsAscending xs → i ≤ j → j < length xs → get_or xs i 0 ≤ get_or xs j 0
get_or_mono [] i j a h l = absurd (omega arith)
get_or_mono (x ∷ xs) zero zero a h l = omega arith
get_or_mono (x ∷ xs) zero (suc j) a h l = All-get_or (λ y. x ≤ y) xs j a.0 (omega arith)
get_or_mono (x ∷ xs) (suc i) zero a h l = absurd (omega arith)
get_or_mono (x ∷ xs) (suc i) (suc j) a h l = get_or_mono xs i j a.1 (omega arith) (omega arith)

last_of-get : (x : ℕ) (xs : List ℕ) → last_of (x ∷ xs) ≡ ok (get_or (x ∷ xs) (length xs) 0)
unfolding last_of
last_of-get x [] = refl
last_of-get x (y ∷ xs) = last_of-get y xs

-- The index that `percentile` reads.
abbrev place : (ℕ → ℕ) → ℕ → ℕ
place scale n = if leb n (scale n) then n - 1 else scale n

percentile-get :
    (scale : ℕ → ℕ) (x : ℕ) (xs : List ℕ)
    → percentile scale (x ∷ xs) ≡ get_or (x ∷ xs) (place scale (length (x ∷ xs))) 0
unfolding percentile
percentile-get scale x xs = ground arith

place-lt : (scale : ℕ → ℕ) (n : ℕ) → place scale (suc n) ≤ n
place-lt scale n = ground arith

place_mono :
    (scale scale' : ℕ → ℕ) (n : ℕ)
    → scale (suc n) ≤ scale' (suc n)
    → place scale (suc n) ≤ place scale' (suc n)
place_mono scale scale' n h = ground arith

percentile_mono :
    (scale scale' : ℕ → ℕ) (x : ℕ) (xs : List ℕ)
    → IsAscending (x ∷ xs)
    → scale (suc (length xs)) ≤ scale' (suc (length xs))
    → percentile scale (x ∷ xs) ≤ percentile scale' (x ∷ xs)
percentile_mono scale scale' x xs a h =
    rw (percentile-get scale x xs, percentile-get scale' x xs)
      (get_or_mono (x ∷ xs) (place scale (suc (length xs))) (place scale' (suc (length xs))) a
        (place_mono scale scale' (length xs) h) (omega (arith, place-lt scale' (length xs))))

percentile-le :
    (scale : ℕ → ℕ) (x : ℕ) (xs : List ℕ)
    → IsAscending (x ∷ xs)
    → percentile scale (x ∷ xs) ≤ get_or (x ∷ xs) (length xs) 0
percentile-le scale x xs a = rw (percentile-get scale x xs) (
    get_or_mono (x ∷ xs) (place scale (suc (length xs))) (length xs) a (place-lt scale (length xs))
      (omega arith))

-- Every entry is at most the last one.
below_last :
    (x : ℕ) (xs : List ℕ)
    → IsAscending (x ∷ xs)
    → All (λ y. y ≤ get_or (x ∷ xs) (length xs) 0) (x ∷ xs)
below_last x [] a = (omega arith, tt)
below_last x (y ∷ xs) a = (
  get_or_mono (x ∷ y ∷ xs) 0 (suc (length xs)) a (omega arith) (omega arith),
  below_last y xs a.1,
)

-- The percentiles are ordered, the largest latency is one of those that were measured, and no
-- measured latency is larger.
pub record IsSummary {F : Type 0} (latencies : List ℕ) (r : Report F) : Type 0 where
  pub p50_p95 : r.p50 ≤ r.p95
  pub p95_p99 : r.p95 ≤ r.p99
  pub p99_max : r.p99 ≤ r.max_lat
  pub max_measured : Mem r.max_lat latencies
  pub max_largest : All (λ y. y ≤ r.max_lat) latencies

get_or-Mem : (xs : List ℕ) (i : ℕ) → i < length xs → Mem (get_or xs i 0) xs
get_or-Mem [] i h = absurd (omega arith)
get_or-Mem (x ∷ xs) zero h = mem-cons_self
get_or-Mem (x ∷ xs) (suc i) h = mem-cons_of_mem x (get_or-Mem xs i (omega arith))

module _ {F : Type 0} ⦃f : Float F⦄ (c : Conversions F) (exact : IsExact c) where
  sorted-IsSummary :
      (r : BenchResult) (sorted : List ℕ)
      → c.sort_slice r.latencies ≡ sorted
      → ((print_result c r ≡ panic) × (r.latencies ≡ []))
        ⊎ ((p : Report F) × (print_result c r ≡ ok p) × IsSummary r.latencies p)
  unfolding print_result report_of
  sorted-IsSummary r [] e =
      let p : Perm [] r.latencies =
        subst (λ l. Perm l r.latencies) e (exact.sort_slice-perm r.latencies) in
      inl (rw e refl, sym (Perm.nil-eq p))
  sorted-IsSummary r (x ∷ xs) e =
      let a : IsAscending (x ∷ xs) =
        subst IsAscending e (exact.sort_slice-IsAscending r.latencies) in
      let p : Perm (x ∷ xs) r.latencies =
        subst (λ l. Perm l r.latencies) e (exact.sort_slice-perm r.latencies) in
      let n = suc (length xs) in
      inr (
        report_of c r (x ∷ xs) (get_or (x ∷ xs) (length xs) 0),
        rw (e, last_of-get x xs) refl,
        record {
          p50_p95 =
              percentile_mono (λ n. c.scaled n 50) (λ n. c.scaled n 95) x xs a
                (exact.scaled_mono n 50 95 (omega arith));
          p95_p99 =
              percentile_mono (λ n. c.scaled n 95) (λ n. c.scaled n 99) x xs a
                (exact.scaled_mono n 95 99 (omega arith));
          p99_max = percentile-le (λ n. c.scaled n 99) x xs a;
          max_measured = (Perm.mem_iff p).0 (get_or-Mem (x ∷ xs) (length xs) (omega arith));
          max_largest =
              All-perm (λ y. y ≤ get_or (x ∷ xs) (length xs) 0) (x ∷ xs) r.latencies (λ y. le_prop)
                p (below_last x xs a);
        },
      )

  -- `printResult` panics exactly if no request was made. Otherwise it prints percentiles that are in
  -- their order and at most the largest latency, which was measured and which no measured
  -- latency exceeds.
  pub print_result-IsSummary :
      (r : BenchResult)
      → ((print_result c r ≡ panic) × (r.latencies ≡ []))
        ⊎ ((p : Report F) × (print_result c r ≡ ok p) × IsSummary r.latencies p)
  print_result-IsSummary r = sorted-IsSummary r (c.sort_slice r.latencies) refl
