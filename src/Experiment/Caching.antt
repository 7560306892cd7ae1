-- ===== src/Experiment/Caching.antt =====
-- What the cache of experiments holds and for how long.
use recsys_pipeline.Common.{
  ℕ, ◌+◌, ◌≡◌, ◌≢◌, ◌<◌, refl, sym, ap, ◌∙◌, true, Option, none, some, List, Result, ok, err, panic,
  Error, Safe, Slice, elems, pure, and_then, >>=-Safe, Ensures, arith, Bool-cases, inl, inr,
}
use recsys_pipeline.Common.Text.{Text}
use recsys_pipeline.Common.Int.{pos}
use recsys_pipeline.Common.Float.{Float}
use recsys_pipeline.Experiment.{
  Experiment, Store, Cache, World, hash_bucket, assign, is_fresh, stale, fetched, refresh,
  load_experiments, get_experiment,
}

-- The cache holds a list, which may be empty.
abbrev pub IsFilled : {F : Type 0} → Cache F → Type 0
IsFilled {F} c = (es : List (Experiment F)) × (c.cached ≡ some es)

-- The time until which the cache is used.
abbrev pub expiry : {F : Type 0} → Cache F → ℕ
expiry c = c.last_fetched + c.cache_ttl

is_fresh-IsFilled :
    {F : Type 0} (now : ℕ) (c : Cache F) → IsFilled c → now < expiry c → is_fresh now c ≡ true
unfolding is_fresh
is_fresh-IsFilled now c (es, e) h = rw e (ground arith)

stale-Safe :
    {F : Type 0} (s : Slice (Experiment F)) (e : Error) → Ensures (λ _. Unit {0}) (stale s e)
unfolding stale
stale-Safe none e = tt
stale-Safe (some es) e = tt

stale-ok : {F : Type 0} (s es : Slice (Experiment F)) (e : Error) → stale s e ≡ ok es → s ≡ es
unfolding stale
stale-ok none es e h = absurd (cc)
stale-ok (some xs) es e h = cc

module _ {σ F : Type 0} (clock : σ → ℕ) where
  fetched-ok :
      (c : Cache F) (r : Result (Slice (Experiment F)) × σ) (es : Slice (Experiment F))
      → (fetched clock c r).0 ≡ ok es
      → (fetched clock c r).1.cache.cached ≡ es
  unfolding fetched
  fetched-ok c (ok xs, t) es h = cc
  fetched-ok c (err e, t) es h = stale-ok c.cached es e h
  fetched-ok c (panic, t) es h = absurd (cc)

  refresh-ok :
      (store : Store σ F) (w : World σ F) (es : Slice (Experiment F))
      → (refresh clock store w).0 ≡ ok es
      → (refresh clock store w).1.cache.cached ≡ es
  unfolding refresh
  refresh-ok store w es = elim (Bool-cases (is_fresh (clock w.rest) w.cache)) [
    | inl e ↦ rw e λ h. cc
    | inr e ↦ rw e λ h. fetched-ok w.cache (store.list_active_experiments w.rest) es h
  ]

  -- What a load returns is what it leaves in the cache.
  load-ok :
      (gap : World σ F → World σ F) (store : Store σ F) (w : World σ F) (es : Slice (Experiment F))
      → (load_experiments clock gap store w).0 ≡ ok es
      → (load_experiments clock gap store w).1.cache.cached ≡ es
  unfolding load_experiments
  load-ok gap store w es = elim (Bool-cases (is_fresh (clock w.rest) w.cache)) [
    | inl e ↦ rw e λ h. cc
    | inr e ↦ rw e λ h. refresh-ok store (gap w) es h
  ]

  fetched-Filled :
      (c : Cache F) (r : Result (Slice (Experiment F)) × σ)
      → IsFilled c
      → r.0 ≢ panic
      → (es : Slice (Experiment F)) × ((fetched clock c r).0 ≡ ok es)
  unfolding fetched stale
  fetched-Filled c (ok xs, t) h safe = (xs, refl)
  fetched-Filled c (err e, t) (es, h) safe = (some es, rw h)
  fetched-Filled c (panic, t) h safe = absurd (safe refl)

  -- Once the cache is filled a load returns experiments whether or not the store fails, if the
  -- store does not panic and the other goroutines leave the cache filled.
  pub load_never_fails :
      (gap : World σ F → World σ F) (store : Store σ F) (w : World σ F)
      → ((t : σ) → (store.list_active_experiments t).0 ≢ panic)
      → IsFilled (gap w).cache
      → (es : Slice (Experiment F)) × ((load_experiments clock gap store w).0 ≡ ok es)
  unfolding load_experiments refresh
  load_never_fails gap store w safe h = elim (Bool-cases (is_fresh (clock w.rest) w.cache)) [
    | inl e ↦ rw e (w.cache.cached, refl)
    | inr e ↦ rw e (elim (Bool-cases (is_fresh (clock (gap w).rest) (gap w).cache)) [
      | inl k ↦ rw k ((gap w).cache.cached, refl)
      | inr k ↦ rw k (
          fetched-Filled (gap w).cache (store.list_active_experiments (gap w).rest) h
            (safe (gap w).rest))
    ])
  ]

  load-fresh :
      (gap : World σ F → World σ F) (store : Store σ F) (w : World σ F)
      → is_fresh (clock w.rest) w.cache ≡ true
      → load_experiments clock gap store w ≡ (ok w.cache.cached, w)
  unfolding load_experiments
  load-fresh gap store w h = rw h

module _ {σ F : Type 0} ⦃f : Float F⦄ (clock : σ → ℕ) where
  abbrev assigned : Text → Slice (Experiment F) → Option (Experiment F)
  assigned user es = assign (hash_bucket user) (f.decimal (pos 0) 0) (elems es)

  and_then-pure :
      {A : Type 0} (r : Result A × World σ F) (g : A → Option (Experiment F))
      (x : Option (Experiment F))
      → (and_then r (λ a. pure (g a))).0 ≡ ok x
      → (a : A) × (r.0 ≡ ok a) × (x ≡ g a) × ((and_then r (λ a. pure (g a))).1 ≡ r.1)
  and_then-pure (ok a, w) g x h = (a, refl, cc, refl)
  and_then-pure (err e, w) g x h = absurd (cc)
  and_then-pure (panic, w) g x h = absurd (cc)

  -- A user's assignment does not change until the cache expires: after a request that was answered
  -- and left the cache filled, every request of the same user before that time has the same answer
  -- and asks no store, whatever the store holds by then.
  pub get_experiment_stable :
      (gap gap' : World σ F → World σ F) (store store' : Store σ F) (user : Text) (w : World σ F)
      (x : Option (Experiment F)) (later : σ)
      → let w' = (get_experiment clock gap store user w).1 in
        (get_experiment clock gap store user w).0 ≡ ok x
        → IsFilled w'.cache
        → clock later < expiry w'.cache
        → get_experiment clock gap' store' user (record { cache = w'.cache; rest = later })
          ≡ (ok x, record { cache = w'.cache; rest = later })
  unfolding get_experiment
  get_experiment_stable gap gap' store store' user w x later answered filled soon =
      let (es, loaded, by_list, same_world) =
        and_then-pure (load_experiments clock gap store w) (assigned user) x answered in
      let cache = (get_experiment clock gap store user w).1.cache in
      let held : cache.cached ≡ es =
        ap (λ v. v.cache.cached) same_world ∙ load-ok clock gap store w es loaded in
      ap (λ r. and_then r (λ a. pure (assigned user a)))
        (load-fresh clock gap' store' (record { cache = cache; rest = later })
          (is_fresh-IsFilled (clock later) cache filled soon))
      ∙ ap (λ y. (ok y, record { cache = cache; rest = later }))
          (ap (assigned user) held ∙ sym by_list)

module _ {σ F : Type 0} (clock : σ → ℕ) where
  fetched-Safe :
      (c : Cache F) (r : Result (Slice (Experiment F)) × σ)
      → Ensures (λ _. Unit {0}) r.0
      → Ensures (λ _. Unit {0}) (fetched clock c r).0
  unfolding fetched
  fetched-Safe c (ok xs, t) h = tt
  fetched-Safe c (err e, t) h = stale-Safe c.cached e
  fetched-Safe c (panic, t) h = h

  load-Safe :
      (gap : World σ F → World σ F) (store : Store σ F) (w : World σ F)
      → ((t : σ) → Safe store.list_active_experiments t)
      → Safe (load_experiments clock gap store) w
  unfolding load_experiments refresh
  load-Safe gap store w safe = elim (Bool-cases (is_fresh (clock w.rest) w.cache)) [
    | inl e ↦ rw e tt
    | inr e ↦ rw e (elim (Bool-cases (is_fresh (clock (gap w).rest) (gap w).cache)) [
      | inl k ↦ rw k tt
      | inr k ↦ rw k (
          fetched-Safe (gap w).cache (store.list_active_experiments (gap w).rest)
            (safe (gap w).rest))
    ])
  ]

  pub get_experiment-Safe :
      ⦃f : Float F⦄ (gap : World σ F → World σ F) (store : Store σ F) (user : Text) (w : World σ F)
      → ((t : σ) → Safe store.list_active_experiments t)
      → Safe (get_experiment clock gap store user) w
  unfolding get_experiment
  get_experiment-Safe gap store user w safe =
      >>=-Safe (load_experiments clock gap store) _ w (load-Safe gap store w safe) λ es t. tt
