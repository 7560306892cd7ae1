-- ===== src/Tier.antt =====
-- services/recommendation-api/internal/tier: the types, the interfaces that the router depends on,
-- and the router. `σ` is what the router's dependencies keep and may change between two calls, and
-- `F` is the type of scores.
pub mod Limits
pub mod Levels
pub mod Failures
pub mod Hits
mod Tests
use recsys_pipeline.Common.{
  ℕ, ◌≡◌, Bool, true, false, Option, none, some, List, [], ◌∷◌, Result, ok, err, panic, Action,
  ◌>>=◌, pure, of_result, attempt, when, Slice, elems, non_nil, truncate, length, ◌==◌,
  if◌then◌else◌,
}
use recsys_pipeline.Common.Int.{ℤ}
use recsys_pipeline.Common.Text.{Text, text, same}

-- The level of the pipeline that served a result.
pub data Level : Type 0 where
  tier1 tier2 tier3 fallback : Level

-- The string constants of `Level`.
unfoldable pub level_text : Level → Text
level_text tier1 = text "tier1_precomputed"
level_text tier2 = text "tier2_rerank"
level_text tier3 = text "tier3_inference"
level_text fallback = text "fallback_popular"

pub record Recommendation (F : Type 0) : Type 0 where
  pub item_id : Text
  pub score : F

abbrev pub Recs : Type 0 → Type 0
Recs F = Slice (Recommendation F)

pub record Store (σ F : Type 0) : Type 0 where
  pub get_recommendations : Text → Action σ (Recs F)
  pub get_popular_items : ℤ → Action σ (Recs F)

pub record StockChecker (σ F : Type 0) : Type 0 where
  pub is_out_of_stock : Text → Action σ Bool
  pub filter_out_of_stock : Recs F → Action σ (Recs F)

pub record Reranker (σ F : Type 0) : Type 0 where
  pub rerank : Text → Text → Recs F → Action σ (Recs F)

pub record Ranker (σ F : Type 0) : Type 0 where
  pub rank : Text → Recs F → Action σ (Recs F)

pub record DegradationChecker (σ : Type 0) : Type 0 where
  pub is_tier_allowed : Text → Action σ Bool

-- An interface value that is nil is `none`.
pub record Router (σ F : Type 0) : Type 0 where
  pub store : Store σ F
  pub stock : StockChecker σ F
  pub reranker : Option (Reranker σ F)
  pub degradation : Option (DegradationChecker σ)
  pub ranker : Option (Ranker σ F)

-- The interface value that a nil `*degradation.Manager` turns into: it is not nil, and its method
-- dereferences nil.
abbrev pub nil_manager : {σ : Type 0} → DegradationChecker σ
nil_manager = record { is_tier_allowed = λ name s. (panic, s) }

abbrev pub or_nil_manager : {σ : Type 0} → Option (DegradationChecker σ) → DegradationChecker σ
or_nil_manager none = nil_manager
or_nil_manager (some dm) = dm

pub allowed_by : {σ : Type 0} → Option (DegradationChecker σ) → Text → Action σ Bool
allowed_by none name = pure true
allowed_by (some d) name = d.is_tier_allowed name

abbrev pub is_empty : {F : Type 0} → Recs F → Bool
is_empty recs = length (elems recs) == 0

-- The level after step 2.
abbrev pub first_level : Bool → Level
first_level miss = if miss then fallback else tier1

abbrev pub promote : Level → Level
promote tier1 = tier2
promote level = level

-- What the router makes of the ranker's answer.
abbrev pub after_rank : {F : Type 0} → Recs F → Result (Recs F) → Result (Recs F × Level)
after_rank recs (ok ranked) = ok (ranked, tier3)
after_rank recs (err e) = ok (recs, fallback)
after_rank recs panic = panic

module _ {σ F : Type 0} where
  unfoldable pub new_router : Store σ F → StockChecker σ F → Option (Reranker σ F) → Router σ F
  new_router store stock reranker = record {
    store = store;
    stock = stock;
    reranker = reranker;
    degradation = none;
    ranker = none;
  }

  -- `dm` is a pointer, and nil is `none`.
  unfoldable pub new_router_with_degradation :
      Store σ F
      → StockChecker σ F
      → Option (Reranker σ F)
      → Option (DegradationChecker σ)
      → Router σ F
  new_router_with_degradation store stock reranker dm = record {
    store = store;
    stock = stock;
    reranker = reranker;
    degradation = some (or_nil_manager dm);
    ranker = none;
  }

  unfoldable pub new_router_with_ranker :
      Store σ F
      → StockChecker σ F
      → Option (Reranker σ F)
      → Option (DegradationChecker σ)
      → Option (Ranker σ F)
      → Router σ F
  new_router_with_ranker store stock reranker dm ranker = record {
    store = store;
    stock = stock;
    reranker = reranker;
    degradation = dm;
    ranker = ranker;
  }

  unfoldable pub is_tier_allowed : Router σ F → Text → Action σ Bool
  unfolding allowed_by
  is_tier_allowed r name = allowed_by r.degradation name

  -- Every tier is off: the popular items as they are.
  pub emergency : Router σ F → ℤ → Action σ (Recs F × Level)
  emergency r limit = do
    recs ← r.store.get_popular_items limit
    cut ← of_result (truncate limit (non_nil recs))
    pure (cut, fallback)

  pub popular_candidates : Router σ F → ℤ → Action σ (Recs F × Bool)
  popular_candidates r limit = do popular ← r.store.get_popular_items limit; pure (popular, true)

  -- Steps 1 and 2: the candidates, and whether the cache missed.
  pub candidates : Router σ F → Text → ℤ → Action σ (Recs F × Bool)
  unfolding popular_candidates
  candidates r user limit = do
    recs ← r.store.get_recommendations user
    when (is_empty recs) (popular_candidates r limit) (pure (recs, false))

  pub rerank_with : Reranker σ F → Text → Text → Level → Recs F → Action σ (Recs F × Level)
  rerank_with rr user session level recs = do
    reranked ← rr.rerank user session recs
    pure (reranked, promote level)

  pub try_rerank :
      Router σ F → Reranker σ F → Text → Text → Level → Recs F → Action σ (Recs F × Level)
  unfolding is_tier_allowed rerank_with
  try_rerank r rr user session level recs = do
    allowed ← is_tier_allowed r (text "tier2")
    when allowed (rerank_with rr user session level recs) (pure (recs, level))

  -- Step 4
  pub rerank_step :
      Router σ F → Option (Reranker σ F) → Text → Text → Level → Recs F → Action σ (Recs F × Level)
  unfolding try_rerank
  rerank_step r none user session level recs = pure (recs, level)
  rerank_step r (some rr) user session level recs =
      when (same session []) (pure (recs, level)) (try_rerank r rr user session level recs)

  pub rank_with : Ranker σ F → Text → Recs F → Action σ (Recs F × Level)
  rank_with rk user recs = do
    answer ← attempt (rk.rank user recs)
    of_result (after_rank recs answer)

  pub try_rank : Router σ F → Ranker σ F → Text → Level → Recs F → Action σ (Recs F × Level)
  unfolding is_tier_allowed rank_with
  try_rank r rk user level recs = do
    allowed ← is_tier_allowed r (text "tier3")
    when allowed (rank_with rk user recs) (pure (recs, level))

  -- Step 5
  pub rank_step :
      Router σ F → Option (Ranker σ F) → Text → Bool → Level → Recs F → Action σ (Recs F × Level)
  unfolding try_rank
  rank_step r none user miss level recs = pure (recs, level)
  rank_step r (some rk) user miss level recs =
      when miss (try_rank r rk user level recs) (pure (recs, level))

  -- Steps 4 to 6, on the candidates that are in stock.
  pub serve : Router σ F → Text → Text → ℤ → Bool → Recs F → Action σ (Recs F × Level)
  unfolding rerank_step rank_step
  serve r user session limit miss stocked = do
    (reranked, level) ← rerank_step r r.reranker user session (first_level miss) stocked
    (ranked, level') ← rank_step r r.ranker user miss level reranked
    cut ← of_result (truncate limit ranked)
    pure (cut, level')

  pub pipeline : Router σ F → Text → Text → ℤ → Action σ (Recs F × Level)
  unfolding candidates serve
  pipeline r user session limit = do
    (found, miss) ← candidates r user limit
    stocked ← r.stock.filter_out_of_stock found
    serve r user session limit miss stocked

  unfoldable pub recommend : Router σ F → Text → Text → ℤ → Action σ (Recs F × Level)
  unfolding is_tier_allowed emergency pipeline
  recommend r user session limit = do
    allowed ← is_tier_allowed r (text "tier1")
    when allowed (pipeline r user session limit) (emergency r limit)
