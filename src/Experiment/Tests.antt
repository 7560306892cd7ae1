-- ===== src/Experiment/Tests.antt =====
-- Two experiments of ten and ninety percent, on a store that then fails.
use recsys_pipeline.Common.{
  ℕ, zero, suc, ◌==◌, ◌&&◌, ◌*◌, ◌≡◌, ◌≢◌, ◌<◌, refl, Bool, true, some, none, [], ◌∷◌, get_elem?,
  ok, err, panic, arith, if◌then◌else◌,
}
use recsys_pipeline.Common.Int.{pos, ◌+ℤ◌, ◌*ℤ◌}
use recsys_pipeline.Common.Text.{Text, text}
use recsys_pipeline.Common.Float.{Tenths, tenths}
use recsys_pipeline.Experiment.{
  Experiment, Store, Cache, World, new_router, hash_bucket, assign, load_experiments,
  get_experiment,
}
use recsys_pipeline.Experiment.Assign.{running_sums, passed, total, assign-passed}
use recsys_pipeline.Experiment.Caching.{get_experiment_stable}

abbrev experiment : Text → ℕ → Experiment Tenths
experiment id percent = record {
  id = id;
  model_version = text "v1";
  traffic_pct = some (pos (percent * 10));
  tier_config = [];
}

abbrev ten : Experiment Tenths
ten = experiment (text "a") 10

abbrev ninety : Experiment Tenths
ninety = experiment (text "b") 90

-- The published hashes of FNV-1a: 0xe40c292c for "a" and 0xbf9cf968 for "foobar".
known_hashes : (hash_bucket (text "a") ≡ 20) × (hash_bucket (text "foobar") ≡ 20)
unfolding hash_bucket
known_hashes = (refl, refl)

by_bucket :
    (assign 9 (some (pos 0)) (ten ∷ ninety ∷ []) ≡ some ten)
    × (assign 10 (some (pos 0)) (ten ∷ ninety ∷ []) ≡ some ninety)
    × (assign 10 (some (pos 0)) (ten ∷ []) ≡ none)
unfolding assign ◌+ℤ◌ ◌*ℤ◌
by_bucket = (refl, refl, refl)

assign-passed_example :
    assign 10 (some (pos 0)) (ten ∷ ninety ∷ [])
    ≡ get_elem?
        (ten ∷ ninety ∷ [])
        (passed (tenths.decimal (pos 10) 0) (running_sums (some (pos 0)) (ten ∷ ninety ∷ [])))
assign-passed_example = assign-passed 10 (some (pos 0)) (ten ∷ ninety ∷ [])

abbrev in_sum : ℕ → Bool
in_sum b =
    tenths.lt (tenths.decimal (pos b) 0) (total (tenths.decimal (pos 0) 0) (ten ∷ ninety ∷ []))

abbrev each_below : ℕ → (ℕ → Bool) → Bool
each_below zero p = true
each_below (suc n) p = p n && each_below n p

each_below_sound : (n b : ℕ) (p : ℕ → Bool) → each_below n p ≡ true → b < n → p b ≡ true
each_below_sound zero b p h lt = absurd (omega arith)
each_below_sound (suc n) b p h lt = ground (arith, each_below_sound n b p)

hundred : each_below 100 in_sum ≡ true
unfolding ◌+ℤ◌ ◌*ℤ◌
hundred = refl

abbrev clock : ℕ → ℕ
clock n = n

-- The store answers at first, and fails from the time 1000 on.
abbrev store : Store ℕ Tenths
store = record {
  list_active_experiments = λ t. (if t == 0 then ok (some (ten ∷ [])) else err (text "down"), t);
}

abbrev start : World ℕ Tenths
unfolding new_router
start = record { cache = new_router; rest = 0 }

abbrev no_gap : World ℕ Tenths → World ℕ Tenths
no_gap w = w

abbrev loaded : Cache Tenths
loaded = record { cache_ttl = 30000000000; cached = some (ten ∷ []); last_fetched = 0 }

answers : (t : ℕ) → (store.list_active_experiments t).0 ≢ panic
answers t = ground arith

-- "u_1" is in the bucket 16 beyond the ten percent, and has no experiment now and until the cache expires.
get_experiment_stable_example :
    get_experiment clock no_gap store (text "u_1") (record { cache = loaded; rest = 5000 })
    ≡ (ok none, record { cache = loaded; rest = 5000 })
unfolding new_router get_experiment load_experiments assign hash_bucket ◌+ℤ◌ ◌*ℤ◌
get_experiment_stable_example =
    get_experiment_stable clock no_gap no_gap store store (text "u_1") start none 5000 refl
      (ten ∷ [], refl) (omega arith)
