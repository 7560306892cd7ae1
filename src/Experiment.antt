-- ===== src/Experiment.antt =====
-- services/recommendation-api/internal/experiment/router.go: the assignment of users to
-- experiments, and the cache of the experiments. The clock is read off the state of the world.
-- What other goroutines do between the two critical sections of one load is the argument `gap`.
pub mod Assign
pub mod Caching
mod Tests
use Prim.Native.Nat.{bit_xor}
use recsys_pipeline.Common.{
  ℕ, ◌+◌, ◌*◌, ◌%◌, ◌^◌, Bool, true, false, Option, none, some, List, [], ◌∷◌, Result, ok, err,
  panic, Error, Action, ◌>>=◌, pure, Slice, elems, ◌&&◌, ltb, if◌then◌else◌,
}
use recsys_pipeline.Common.Int.{pos}
use recsys_pipeline.Common.Text.{Text}
use recsys_pipeline.Common.Float.{Float}

pub record Experiment (F : Type 0) : Type 0 where
  pub id : Text
  pub model_version : Text
  pub traffic_pct : F
  pub tier_config : Text

pub record Store (σ F : Type 0) : Type 0 where
  pub list_active_experiments : Action σ (Slice (Experiment F))

-- The fields of the router that are not its store; times are nanoseconds.
pub record Cache (F : Type 0) : Type 0 where
  pub cache_ttl : ℕ
  pub cached : Slice (Experiment F)
  pub last_fetched : ℕ

-- The cache, and the rest of the world.
pub record World (σ F : Type 0) : Type 0 where
  pub cache : Cache F
  pub rest : σ

unfoldable pub new_router : {F : Type 0} → Cache F
new_router = record { cache_ttl = 30000000000; cached = none; last_fetched = 0 }

-- FNV-1a with 32 bits, from a hash on.
fnv_from : ℕ → Text → ℕ
fnv_from h [] = h
fnv_from h (c ∷ s) = fnv_from (bit_xor h c * 16777619 % 2 ^ 32) s

unfoldable pub hash_bucket : Text → ℕ
unfolding fnv_from
hash_bucket user = fnv_from 2166136261 user % 100

-- The loop of `GetExperiment`.
unfoldable pub assign :
    {F : Type 0} ⦃f : Float F⦄ → ℕ → F → List (Experiment F) → Option (Experiment F)
assign bucket cumulative [] = none
assign ⦃f⦄ bucket cumulative (e ∷ es) =
    let cumulative' = f.add cumulative e.traffic_pct in
    let rest = assign bucket cumulative' es in
    if f.lt (f.decimal (pos bucket) 0) cumulative' then some e else rest

-- `cached != nil`
abbrev pub is_filled : {F : Type 0} → Slice (Experiment F) → Bool
is_filled none = false
is_filled (some es) = true

-- `cached != nil && time.Since(lastFetched) < cacheTTL`
pub is_fresh : {F : Type 0} → ℕ → Cache F → Bool
is_fresh now c = is_filled c.cached && ltb now (c.last_fetched + c.cache_ttl)

-- What an error of the store comes to.
pub stale : {F : Type 0} → Slice (Experiment F) → Error → Result (Slice (Experiment F))
stale none e = err e
stale (some es) e = ok (some es)

module _ {σ F : Type 0} (clock : σ → ℕ) where
  pub fetched :
      Cache F → Result (Slice (Experiment F)) × σ → Result (Slice (Experiment F)) × World σ F
  unfolding stale
  fetched c (ok es, t) =
      (ok es, record { cache = record c { cached = es; last_fetched = clock t }; rest = t })
  fetched c (err e, t) = (stale c.cached e, record { cache = c; rest = t })
  fetched c (panic, t) = (panic, record { cache = c; rest = t })

  -- Under the write lock.
  pub refresh : Store σ F → Action (World σ F) (Slice (Experiment F))
  unfolding is_fresh fetched
  refresh store w =
      let asked = fetched w.cache (store.list_active_experiments w.rest) in
      if is_fresh (clock w.rest) w.cache then (ok w.cache.cached, w) else asked

  unfoldable pub load_experiments :
      (World σ F → World σ F) → Store σ F → Action (World σ F) (Slice (Experiment F))
  unfolding is_fresh refresh
  load_experiments gap store w =
      let refreshed = refresh store (gap w) in
      if is_fresh (clock w.rest) w.cache then (ok w.cache.cached, w) else refreshed

  unfoldable pub get_experiment :
      ⦃f : Float F⦄
      → (World σ F → World σ F)
      → Store σ F
      → Text
      → Action (World σ F) (Option (Experiment F))
  unfolding load_experiments hash_bucket assign
  get_experiment ⦃f⦄ gap store user = do
    experiments ← load_experiments gap store
    pure (assign (hash_bucket user) (f.decimal (pos 0) 0) (elems experiments))
