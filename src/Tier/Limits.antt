-- ===== src/Tier/Limits.antt =====
-- What the router returns, from what its dependencies promise: no panic, no more items than asked
-- for, and only items that pass the stock filter.
use recsys_pipeline.Common.{
  ℕ, ◌≤◌, ◌≡◌, Bool, true, false, Option, none, some, [], length, All, All-unit, Result, ok, err,
  panic, Ensures, Runs, Safe, elems, non_nil, truncate, pure, of_result, attempt, >>=-Runs,
  >>=-Safe, attempt-Runs, when-Runs, Ensures-mono, truncate-Ensures,
}
use recsys_pipeline.Common.Int.{pos}
use recsys_pipeline.Common.Text.{Text, text, same}
use recsys_pipeline.Tier.{
  Level, fallback, Recs, Reranker, Ranker, DegradationChecker, Router, allowed_by, is_tier_allowed,
  emergency, is_empty, popular_candidates, candidates, promote, first_level, rerank_with,
  try_rerank, rerank_step, after_rank, rank_with, try_rank, rank_step, serve, pipeline, recommend,
}

-- Every item of the slice has the property.
abbrev pub AllGood : {F : Type 0} → (Text → Type 0) → Recs F → Type 0
AllGood Good recs = All (λ x. Good x.item_id) (elems recs)

abbrev pub CheckerRuns : {σ : Type 0} → Option (DegradationChecker σ) → Type 0
CheckerRuns none = Unit
CheckerRuns {σ} (some d) = (name : Text) (s : σ) → Safe (d.is_tier_allowed name) s

module _ {σ F : Type 0} where
  abbrev pub RerankerKeeps : (Text → Type 0) → Option (Reranker σ F) → Type 0
  RerankerKeeps Good none = Unit
  RerankerKeeps Good (some rr) =
      (user session : Text) (recs : Recs F) (s : σ)
      → AllGood Good recs
      → Runs (AllGood Good) (rr.rerank user session recs) s

  abbrev pub RankerKeeps : (Text → Type 0) → Option (Ranker σ F) → Type 0
  RankerKeeps Good none = Unit
  RankerKeeps Good (some rk) =
      (user : Text) (recs : Recs F) (s : σ)
      → AllGood Good recs
      → Runs (AllGood Good) (rk.rank user recs) s

  -- What the router relies on: no dependency panics, the stock filter lets only good items
  -- through, and neither the re-ranker nor the ranker brings in another item.
  pub record Contract (Good : Text → Type 0) (r : Router σ F) : Type 0 where
    pub popular : (n : ℕ) (s : σ) → Safe (r.store.get_popular_items (pos n)) s
    pub cached : (user : Text) (s : σ) → Safe (r.store.get_recommendations user) s
    pub filtered :
        (recs : Recs F) (s : σ) → Runs (AllGood Good) (r.stock.filter_out_of_stock recs) s
    pub reranked : RerankerKeeps Good r.reranker
    pub ranked : RankerKeeps Good r.ranker
    pub checked : CheckerRuns r.degradation

module _ {σ F : Type 0} (Good : Text → Type 0) (r : Router σ F) (c : Contract Good r) where
  allowed_by-Runs :
      (d : Option (DegradationChecker σ)) (name : Text) (s : σ)
      → CheckerRuns d
      → Safe (allowed_by d name) s
  unfolding allowed_by
  allowed_by-Runs none name s h = tt
  allowed_by-Runs (some d) name s h = h name s

  is_tier_allowed-Runs : (name : Text) (s : σ) → Safe (is_tier_allowed r name) s
  unfolding is_tier_allowed
  is_tier_allowed-Runs name s = allowed_by-Runs r.degradation name s c.checked

  popular_candidates-Runs : (n : ℕ) (s : σ) → Safe (popular_candidates r (pos n)) s
  unfolding popular_candidates
  popular_candidates-Runs n s =
      >>=-Safe {B = Recs F × Bool} (r.store.get_popular_items (pos n)) (λ p. pure (p, true)) s
        (c.popular n s) λ p u. tt

  candidates-Runs : (user : Text) (n : ℕ) (s : σ) → Safe (candidates r user (pos n)) s
  unfolding candidates
  candidates-Runs user n s =
      >>=-Safe (r.store.get_recommendations user) _ s (c.cached user s) λ recs t.
        when-Runs (λ _. Unit {0}) (is_empty recs) (popular_candidates r (pos n))
          (pure (recs, false)) t (λ _. popular_candidates-Runs n t) (λ _. tt)

  -- The items of a step's result are good.
  abbrev FirstGood : Recs F × Level → Type 0
  FirstGood x = AllGood Good x.0

  try_rerank-Runs :
      (rr : Reranker σ F) (user session : Text) (level : Level) (recs : Recs F) (s : σ)
      → RerankerKeeps Good (some rr)
      → AllGood Good recs
      → Runs FirstGood (try_rerank r rr user session level recs) s
  unfolding try_rerank rerank_with
  try_rerank-Runs rr user session level recs s keeps h =
      >>=-Runs (λ _. Unit {0}) FirstGood (is_tier_allowed r (text "tier2")) _ s
        (is_tier_allowed-Runs (text "tier2") s)
        λ allowed t _.
          when-Runs FirstGood allowed (rerank_with rr user session level recs) (pure (recs, level))
            t
            (λ _.
              >>=-Runs (AllGood Good) FirstGood (rr.rerank user session recs)
                (λ x. pure (x, promote level)) t (keeps user session recs t h) λ x u g. g)
            (λ _. h)

  rerank_step-Runs :
      (rr : Option (Reranker σ F)) (user session : Text) (level : Level) (recs : Recs F) (s : σ)
      → RerankerKeeps Good rr
      → AllGood Good recs
      → Runs FirstGood (rerank_step r rr user session level recs) s
  unfolding rerank_step
  rerank_step-Runs none user session level recs s keeps h = h
  rerank_step-Runs (some rr) user session level recs s keeps h =
      when-Runs FirstGood (same session []) (pure (recs, level))
        (try_rerank r rr user session level recs) s (λ _. h)
        (λ _. try_rerank-Runs rr user session level recs s keeps h)

  after_rank-Ensures :
      (recs : Recs F) (answer : Result (Recs F))
      → AllGood Good recs
      → Ensures (AllGood Good) answer
      → Ensures FirstGood (after_rank recs answer)
  after_rank-Ensures recs (ok x) h g = g
  after_rank-Ensures recs (err e) h g = h
  after_rank-Ensures recs panic h g = g

  try_rank-Runs :
      (rk : Ranker σ F) (user : Text) (level : Level) (recs : Recs F) (s : σ)
      → RankerKeeps Good (some rk)
      → AllGood Good recs
      → Runs FirstGood (try_rank r rk user level recs) s
  unfolding try_rank rank_with
  try_rank-Runs rk user level recs s keeps h =
      >>=-Runs (λ _. Unit {0}) FirstGood (is_tier_allowed r (text "tier3")) _ s
        (is_tier_allowed-Runs (text "tier3") s)
        λ allowed t _.
          when-Runs FirstGood allowed (rank_with rk user recs) (pure (recs, level)) t
            (λ _.
              >>=-Runs (λ x. Ensures (AllGood Good) x) FirstGood (attempt (rk.rank user recs))
                (λ answer. of_result (after_rank recs answer)) t
                (attempt-Runs (AllGood Good) (rk.rank user recs) t (keeps user recs t h))
                λ answer u g. after_rank-Ensures recs answer h g)
            (λ _. h)

  rank_step-Runs :
      (rk : Option (Ranker σ F)) (user : Text) (miss : Bool) (level : Level) (recs : Recs F) (s : σ)
      → RankerKeeps Good rk
      → AllGood Good recs
      → Runs FirstGood (rank_step r rk user miss level recs) s
  unfolding rank_step
  rank_step-Runs none user miss level recs s keeps h = h
  rank_step-Runs (some rk) user miss level recs s keeps h =
      when-Runs FirstGood miss (try_rank r rk user level recs) (pure (recs, level)) s
        (λ _. try_rank-Runs rk user level recs s keeps h) (λ _. h)

  -- At most `n` items, all of them good.
  abbrev pub Served : ℕ → Recs F × Level → Type 0
  Served n x = AllGood Good x.0 × (length (elems x.0) ≤ n)

  serve-Runs :
      (user session : Text) (n : ℕ) (miss : Bool) (stocked : Recs F) (s : σ)
      → AllGood Good stocked
      → Runs (Served n) (serve r user session (pos n) miss stocked) s
  unfolding serve
  serve-Runs user session n miss stocked s h =
      >>=-Runs FirstGood (Served n)
        (rerank_step r r.reranker user session (first_level miss) stocked) _ s
        (rerank_step-Runs r.reranker user session (first_level miss) stocked s c.reranked h)
        λ (reranked, level) t g.
          >>=-Runs FirstGood (Served n) (rank_step r r.ranker user miss level reranked) _ t
            (rank_step-Runs r.ranker user miss level reranked t c.ranked g)
            λ (ranked, level') u k.
              >>=-Runs (λ x. AllGood Good x × (length (elems x) ≤ n)) (Served n)
                (of_result (truncate (pos n) ranked)) (λ cut. pure (cut, level')) u
                (truncate-Ensures (λ x. Good x.item_id) n ranked k) λ cut v m. m

  pipeline-Runs :
      (user session : Text) (n : ℕ) (s : σ) → Runs (Served n) (pipeline r user session (pos n)) s
  unfolding pipeline
  pipeline-Runs user session n s =
      >>=-Runs (λ _. Unit {0}) (Served n) (candidates r user (pos n)) _ s (candidates-Runs user n s)
        λ (found, miss) t _.
          >>=-Runs (AllGood Good) (Served n) (r.stock.filter_out_of_stock found) _ t
            (c.filtered found t) λ stocked u g. serve-Runs user session n miss stocked u g

  -- The emergency path asks the stock filter for nothing.
  emergency-Runs : (n : ℕ) (s : σ) → Runs (λ x. length (elems x.0) ≤ n) (emergency r (pos n)) s
  unfolding emergency
  emergency-Runs n s =
      >>=-Runs (λ _. Unit {0}) (λ x. length (elems x.0) ≤ n) (r.store.get_popular_items (pos n)) _ s
        (c.popular n s)
        λ recs t _.
          >>=-Runs (λ x. All (λ _. Unit {0}) (elems x) × (length (elems x) ≤ n))
            (λ x. length (elems x.0) ≤ n) (of_result (truncate (pos n) (non_nil recs)))
            (λ cut. pure (cut, fallback)) t
            (truncate-Ensures (λ _. Unit {0}) n (non_nil recs) (All-unit (elems (non_nil recs))))
            λ cut u m. m.1

  -- Whatever the degradation level, a request for `n` items neither panics nor returns more than
  -- `n`, if no dependency panics.
  pub recommend-limit :
      (user session : Text) (n : ℕ) (s : σ)
      → Runs (λ x. length (elems x.0) ≤ n) (recommend r user session (pos n)) s
  unfolding recommend
  recommend-limit user session n s =
      >>=-Runs (λ _. Unit {0}) (λ x. length (elems x.0) ≤ n) (is_tier_allowed r (text "tier1")) _ s
        (is_tier_allowed-Runs (text "tier1") s)
        λ allowed t _.
          when-Runs (λ x. length (elems x.0) ≤ n) allowed (pipeline r user session (pos n))
            (emergency r (pos n)) t
            (λ _.
              Ensures-mono (Served n) (λ x. length (elems x.0) ≤ n)
                (pipeline r user session (pos n) t).0 (pipeline-Runs user session n t) λ x m. m.1)
            (λ _. emergency-Runs n t)

  -- Unless tier 1 is switched off, every item that is returned is a good one, in every tier, and
  -- there are at most `n`: if the stock filter lets only good items through, the re-ranker and the
  -- ranker bring in no others, and no dependency panics.
  pub recommend-Served :
      (user session : Text) (n : ℕ) (s : σ)
      → Runs (λ allowed. allowed ≡ true) (is_tier_allowed r (text "tier1")) s
      → Runs (Served n) (recommend r user session (pos n)) s
  unfolding recommend
  recommend-Served user session n s on =
      >>=-Runs (λ allowed. allowed ≡ true) (Served n) (is_tier_allowed r (text "tier1")) _ s on
        λ allowed t yes_on.
          when-Runs (Served n) allowed (pipeline r user session (pos n)) (emergency r (pos n)) t
            (λ _. pipeline-Runs user session n t) (λ off. cc)
