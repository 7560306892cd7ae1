-- ===== src/Tier/Failures.antt =====
-- What the router makes of a dependency that fails.
use recsys_pipeline.Common.{
  ◌≡◌, refl, ap, subst, ◌∙◌, Bool, true, false, Option, none, some, [], Result, ok, err, panic,
  Error, Action, truncate, ◌>>=◌, pure, of_result, and_then, attempt, caught, when, >>=-congr,
  >>=-ok, >>=-err, WhenOk_elim,
}
use recsys_pipeline.Common.Int.{ℤ}
use recsys_pipeline.Common.Text.{Text, text, same}
use recsys_pipeline.Tier.{
  Level, fallback, Recs, Reranker, Ranker, Router, is_tier_allowed, emergency, is_empty,
  popular_candidates, candidates, first_level, rerank_step, after_rank, rank_with, try_rank,
  rank_step, serve, pipeline, recommend,
}
use recsys_pipeline.Tier.Levels.{LevelBefore, rerank_step-level}

module _ {σ F : Type 0} (r : Router σ F) (rk : Ranker σ F) (user : Text) where
  rank_with-failed :
      (level : Level) (recs : Recs F) (s : σ)
      → level ≡ fallback
      → ((x : Recs F) (t : σ) → (e : Error) × ((rk.rank user x t).0 ≡ err e))
      → (rank_with rk user recs s).0 ≡ ok (recs, level)
  unfolding rank_with
  rank_with-failed level recs s low fails =
      let (e, failed) = fails recs s in
      >>=-ok (attempt (rk.rank user recs)) (λ answer. of_result (after_rank recs answer)) s (err e)
        (ap caught failed) λ t. cc

  try_rank-failed :
      (level : Level) (recs : Recs F) (s : σ)
      → level ≡ fallback
      → ((t : σ) → (b : Bool) × ((is_tier_allowed r (text "tier3") t).0 ≡ ok b))
      → ((x : Recs F) (t : σ) → (e : Error) × ((rk.rank user x t).0 ≡ err e))
      → (try_rank r rk user level recs s).0 ≡ ok (recs, level)
  unfolding try_rank
  try_rank-failed level recs s low answers fails =
      let (b, answered) = answers s in
      >>=-ok (is_tier_allowed r (text "tier3")) _ s b answered λ t. chosen b t
    where
      chosen :
          (b : Bool) (t : σ)
          → (when b (rank_with rk user recs) (pure (recs, level)) t).0 ≡ ok (recs, level)
      chosen true t = rank_with-failed level recs t low fails
      chosen false t = refl

  -- On a cache miss a failed ranker leaves the candidates at the fallback level.
  rank_step-failed :
      (miss : Bool) (level : Level) (recs : Recs F) (s : σ)
      → (miss ≡ true → level ≡ fallback)
      → ((t : σ) → (b : Bool) × ((is_tier_allowed r (text "tier3") t).0 ≡ ok b))
      → ((x : Recs F) (t : σ) → (e : Error) × ((rk.rank user x t).0 ≡ err e))
      → (rank_step r (some rk) user miss level recs s).0 ≡ ok (recs, level)
  unfolding rank_step
  rank_step-failed false level recs s low answers fails = refl
  rank_step-failed true level recs s low answers fails =
      try_rank-failed level recs s (low refl) answers fails

abbrev pub without_ranker : {σ F : Type 0} → Router σ F → Router σ F
without_ranker r = record r { ranker = none }

module _ {σ F : Type 0} (r : Router σ F) (rk : Ranker σ F) where
  abbrev pub with_ranker : Router σ F
  with_ranker = record r { ranker = some rk }

  -- The two differ in nothing that the earlier steps read.
  rerank_step-same :
      (rr : Option (Reranker σ F)) (user session : Text) (level : Level) (recs : Recs F) (s : σ)
      → rerank_step with_ranker rr user session level recs s
        ≡ rerank_step (without_ranker r) rr user session level recs s
  unfolding rerank_step is_tier_allowed
  rerank_step-same none user session level recs s = refl
  rerank_step-same (some rr) user session level recs s = refl

  before_miss :
      (user session : Text) (miss : Bool) (stocked : Recs F) (s : σ) (x : Recs F × Level) (t : σ)
      → rerank_step with_ranker r.reranker user session (first_level miss) stocked s ≡ (ok x, t)
      → miss ≡ true
      → x.1 ≡ fallback
  before_miss user session miss stocked s x t e missed =
      subst (λ m. LevelBefore m (same session []) x.1) missed
        (WhenOk_elim (λ y. LevelBefore miss (same session []) y.1)
          (rerank_step with_ranker r.reranker user session (first_level miss) stocked s).0
          (rerank_step-level with_ranker user session miss r.reranker stocked s) (ap (λ y. y.0) e))

  abbrev finish : ℤ → Recs F × Level → Action σ (Recs F × Level)
  finish limit (ranked, level) = do cut ← of_result (truncate limit ranked); pure (cut, level)

  abbrev rest : Router σ F → Text → Bool → ℤ → Recs F × Level → Action σ (Recs F × Level)
  rest r' user miss limit (reranked, level) =
      rank_step r' r'.ranker user miss level reranked >>= finish limit

  cut-state :
      (cut : Result (Recs F)) (level : Level) (s t : σ)
      → (and_then {B = Recs F × Level} (cut, s) (λ x. pure (x, level))).0
        ≡ (and_then {B = Recs F × Level} (cut, t) (λ x. pure (x, level))).0
  cut-state (ok x) level s t = refl
  cut-state (err e) level s t = refl
  cut-state panic level s t = refl

  finish-state :
      (limit : ℤ) (x : Recs F × Level) (s t : σ) → (finish limit x s).0 ≡ (finish limit x t).0
  finish-state limit x s t = cut-state (truncate limit x.0) x.1 s t

  serve-failed :
      (user session : Text) (limit : ℤ) (miss : Bool) (stocked : Recs F) (s : σ)
      → ((t : σ) → (b : Bool) × ((is_tier_allowed r (text "tier3") t).0 ≡ ok b))
      → ((x : Recs F) (t : σ) → (e : Error) × ((rk.rank user x t).0 ≡ err e))
      → (serve with_ranker user session limit miss stocked s).0
        ≡ (serve (without_ranker r) user session limit miss stocked s).0
  unfolding serve rank_step is_tier_allowed
  serve-failed user session limit miss stocked s answers fails =
      >>=-congr (rerank_step with_ranker r.reranker user session (first_level miss) stocked)
        (rest with_ranker user miss limit) (rest (without_ranker r) user miss limit) s
        (λ (reranked, level) t e.
          >>=-ok (rank_step with_ranker (some rk) user miss level reranked) (finish limit) t
            (reranked, level)
            (rank_step-failed with_ranker rk user miss level reranked t
              (before_miss user session miss stocked s (reranked, level) t e) answers fails)
            λ u. finish-state limit (reranked, level) u t)
      ∙ ap (λ x. (and_then x (rest (without_ranker r) user miss limit)).0)
          (rerank_step-same r.reranker user session (first_level miss) stocked s)

  pipeline-failed :
      (user session : Text) (limit : ℤ) (s : σ)
      → ((t : σ) → (b : Bool) × ((is_tier_allowed r (text "tier3") t).0 ≡ ok b))
      → ((x : Recs F) (t : σ) → (e : Error) × ((rk.rank user x t).0 ≡ err e))
      → (pipeline with_ranker user session limit s).0
        ≡ (pipeline (without_ranker r) user session limit s).0
  unfolding pipeline candidates popular_candidates
  pipeline-failed user session limit s answers fails =
      >>=-congr (candidates r user limit) _ _ s λ (found, miss) t _.
        >>=-congr (r.stock.filter_out_of_stock found) (serve with_ranker user session limit miss)
          (serve (without_ranker r) user session limit miss) t
          λ stocked u _. serve-failed user session limit miss stocked u answers fails

  -- A ranker that fails on every call is no worse than none: the router returns the same items at
  -- the same level, and the same error or panic of its other dependencies, if the degradation
  -- checker answers.
  pub recommend-failed_ranker :
      (user session : Text) (limit : ℤ) (s : σ)
      → ((t : σ) → (b : Bool) × ((is_tier_allowed r (text "tier3") t).0 ≡ ok b))
      → ((x : Recs F) (t : σ) → (e : Error) × ((rk.rank user x t).0 ≡ err e))
      → (recommend with_ranker user session limit s).0
        ≡ (recommend (without_ranker r) user session limit s).0
  unfolding recommend is_tier_allowed
  recommend-failed_ranker user session limit s answers fails =
      >>=-congr (is_tier_allowed r (text "tier1"))
        (λ allowed. when allowed (pipeline with_ranker user session limit) (emergency r limit)) _ s
        λ allowed t _. chosen allowed t
    where
      chosen :
          (allowed : Bool) (t : σ)
          → (when allowed (pipeline with_ranker user session limit) (emergency r limit) t).0
            ≡ (when allowed
                (pipeline (without_ranker r) user session limit)
                (emergency r limit)
                t).0
      chosen true t = pipeline-failed user session limit t answers fails
      chosen false t = refl

module _ {σ F : Type 0} (r : Router σ F) (user session : Text) (limit : ℤ) where
  -- Unlike the ranker, the stock filter and the re-ranker fail the request: with tier 1 on, an
  -- error of the stock filter on the cached items is the router's error.
  pub recommend-stock_error :
      (s t u : σ) (recs : Recs F) (e : Error)
      → is_tier_allowed r (text "tier1") s ≡ (ok true, t)
      → r.store.get_recommendations user t ≡ (ok recs, u)
      → is_empty recs ≡ false
      → (r.stock.filter_out_of_stock recs u).0 ≡ err e
      → (recommend r user session limit s).0 ≡ err e
  unfolding recommend pipeline candidates
  recommend-stock_error s t u recs e on found some_found fails =
      rw (on, found, some_found) (>>=-err (r.stock.filter_out_of_stock recs) _ u fails)
