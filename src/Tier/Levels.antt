-- ===== src/Tier/Levels.antt =====
-- Which level the router reports, from what the cache and the request hold.
use recsys_pipeline.Common.{
  ◌≡◌, refl, sym, ap, subst, Bool, true, false, Option, none, some, [], ◌⊎◌, inl, inr, Result, ok,
  err, panic, WhenOk, Yields, truncate, pure, of_result, attempt, >>=-Yields, when-Yields,
  WhenOk_elim,
}
use recsys_pipeline.Common.Int.{ℤ}
use recsys_pipeline.Common.Text.{Text, text, same}
use recsys_pipeline.Tier.{
  Level, tier1, tier2, tier3, fallback, Recs, Reranker, Ranker, Router, is_tier_allowed, emergency,
  is_empty, popular_candidates, candidates, promote, first_level, rerank_with, try_rerank,
  rerank_step, after_rank, rank_with, try_rank, rank_step, serve, pipeline, recommend,
}

-- The levels that a request can be served at: by whether the cache missed, and whether the request
-- names no session.
abbrev pub LevelFor : Bool → Bool → Level → Type 0
LevelFor true no_session level = (level ≡ fallback) ⊎ (level ≡ tier3)
LevelFor false true level = level ≡ tier1
LevelFor false false level = (level ≡ tier1) ⊎ (level ≡ tier2)

-- The same before the ranker is asked.
abbrev pub LevelBefore : Bool → Bool → Level → Type 0
LevelBefore true no_session level = level ≡ fallback
LevelBefore false true level = level ≡ tier1
LevelBefore false false level = (level ≡ tier1) ⊎ (level ≡ tier2)

LevelBefore-first : (miss none_named : Bool) → LevelBefore miss none_named (first_level miss)
LevelBefore-first true _ = refl
LevelBefore-first false true = refl
LevelBefore-first false false = inl refl

LevelBefore-promote : (miss : Bool) → LevelBefore miss false (promote (first_level miss))
LevelBefore-promote true = refl
LevelBefore-promote false = inr refl

LevelFor-before :
    (miss none_named : Bool) (level : Level)
    → LevelBefore miss none_named level
    → LevelFor miss none_named level
LevelFor-before true _ level h = inl h
LevelFor-before false true level h = h
LevelFor-before false false level h = h

module _ {σ F : Type 0} (r : Router σ F) (user session : Text) (miss : Bool) where
  abbrev Before : Recs F × Level → Type 0
  Before x = LevelBefore miss (same session []) x.1

  abbrev After : Recs F × Level → Type 0
  After x = LevelFor miss (same session []) x.1

  try_rerank-level :
      (rr : Reranker σ F) (recs : Recs F) (s : σ)
      → same session [] ≡ false
      → Yields Before (try_rerank r rr user session (first_level miss) recs) s
  unfolding try_rerank rerank_with
  try_rerank-level rr recs s named =
      >>=-Yields Before (is_tier_allowed r (text "tier2")) _ s λ allowed t _.
        when-Yields Before allowed (rerank_with rr user session (first_level miss) recs)
          (pure (recs, first_level miss)) t
          (λ _.
            >>=-Yields Before (rr.rerank user session recs)
              (λ x. pure (x, promote (first_level miss))) t
              λ x u _. rw named (LevelBefore-promote miss))
          (λ _. LevelBefore-first miss (same session []))

  pub rerank_step-level :
      (rr : Option (Reranker σ F)) (recs : Recs F) (s : σ)
      → Yields Before (rerank_step r rr user session (first_level miss) recs) s
  unfolding rerank_step
  rerank_step-level none recs s = LevelBefore-first miss (same session [])
  rerank_step-level (some rr) recs s =
      when-Yields Before (same session []) (pure (recs, first_level miss))
        (try_rerank r rr user session (first_level miss) recs) s
        (λ _. LevelBefore-first miss (same session [])) (λ named. try_rerank-level rr recs s named)

  after_rank-level :
      (recs : Recs F) (answer : Result (Recs F))
      → miss ≡ true
      → WhenOk After (after_rank recs answer)
  after_rank-level recs (ok x) m = rw m (inr refl)
  after_rank-level recs (err e) m = rw m (inl refl)
  after_rank-level recs panic m = tt

  rank_step-level :
      (rk : Option (Ranker σ F)) (level : Level) (recs : Recs F) (s : σ)
      → LevelBefore miss (same session []) level
      → Yields After (rank_step r rk user miss level recs) s
  unfolding rank_step try_rank rank_with
  rank_step-level none level recs s h = LevelFor-before miss (same session []) level h
  rank_step-level (some rk) level recs s h =
      when-Yields After miss (try_rank r rk user level recs) (pure (recs, level)) s
        (λ missed. >>=-Yields After (is_tier_allowed r (text "tier3")) _ s λ allowed t _.
          when-Yields After allowed (rank_with rk user recs) (pure (recs, level)) t
            (λ _.
              >>=-Yields After (attempt (rk.rank user recs))
                (λ answer. of_result (after_rank recs answer)) t
                λ answer u _. after_rank-level recs answer missed)
            (λ _. LevelFor-before miss (same session []) level h))
        (λ _. LevelFor-before miss (same session []) level h)

  serve-level :
      (limit : ℤ) (stocked : Recs F) (s : σ)
      → Yields After (serve r user session limit miss stocked) s
  unfolding serve
  serve-level limit stocked s =
      >>=-Yields After (rerank_step r r.reranker user session (first_level miss) stocked) _ s
        λ (reranked, level) t e.
          >>=-Yields After (rank_step r r.ranker user miss level reranked) _ t
            λ (ranked, level') u k.
              >>=-Yields After (of_result (truncate limit ranked)) (λ cut. pure (cut, level')) u
                λ cut v _.
                  WhenOk_elim After (rank_step r r.ranker user miss level reranked t).0
                    (rank_step-level r.ranker level reranked t (
                      WhenOk_elim Before
                        (rerank_step r r.reranker user session (first_level miss) stocked s).0
                        (rerank_step-level r.reranker stocked s) (ap (λ x. x.0) e)))
                    (ap (λ x. x.0) k)

module _ {σ F : Type 0} (r : Router σ F) (user session : Text) (limit : ℤ) (recs : Recs F) where
  candidates-miss :
      (s : σ)
      → (r.store.get_recommendations user s).0 ≡ ok recs
      → Yields (λ x. x.1 ≡ is_empty recs) (candidates r user limit) s
  unfolding candidates popular_candidates
  candidates-miss s e =
      >>=-Yields (λ x. x.1 ≡ is_empty recs) (r.store.get_recommendations user) _ s
        λ found t k.
          let same_recs : found ≡ recs = cc in
          when-Yields (λ x. x.1 ≡ is_empty recs) (is_empty found) (popular_candidates r limit)
            (pure (found, false)) t
            (λ missed.
              >>=-Yields (λ x. x.1 ≡ is_empty recs) (r.store.get_popular_items limit)
                (λ p. pure (p, true)) t
                λ p u _. subst (λ x. true ≡ is_empty x) same_recs (sym missed))
            (λ hit. subst (λ x. false ≡ is_empty x) same_recs (sym hit))

  pipeline-level :
      (s : σ)
      → (r.store.get_recommendations user s).0 ≡ ok recs
      → Yields
          (λ x. LevelFor (is_empty recs) (same session []) x.1)
          (pipeline r user session limit)
          s
  unfolding pipeline
  pipeline-level s e =
      >>=-Yields (λ x. LevelFor (is_empty recs) (same session []) x.1) (candidates r user limit) _ s
        λ (found, miss) t k.
          >>=-Yields (λ x. LevelFor (is_empty recs) (same session []) x.1)
            (r.stock.filter_out_of_stock found) _ t
            λ stocked u _.
              subst
                (λ m.
                  Yields (λ x. LevelFor m (same session []) x.1)
                    (serve r user session limit miss stocked) u)
                (WhenOk_elim (λ x. x.1 ≡ is_empty recs) (candidates r user limit s).0
                  (candidates-miss s e) (ap (λ x. x.0) k))
                (serve-level r user session miss limit stocked u)

  -- With tier 1 on, a user whose cached recommendations are empty is served at the fallback or
  -- tier 3; any other user at tier 1, or, only if the request names a session, at tier 2.
  pub recommend-level :
      (s t : σ)
      → is_tier_allowed r (text "tier1") s ≡ (ok true, t)
      → (r.store.get_recommendations user t).0 ≡ ok recs
      → Yields
          (λ x. LevelFor (is_empty recs) (same session []) x.1)
          (recommend r user session limit)
          s
  unfolding recommend
  recommend-level s t on e =
      >>=-Yields (λ x. LevelFor (is_empty recs) (same session []) x.1)
        (is_tier_allowed r (text "tier1")) _ s
        λ allowed u k.
          when-Yields (λ x. LevelFor (is_empty recs) (same session []) x.1) allowed
            (pipeline r user session limit) (emergency r limit) u
            (λ _.
              pipeline-level u
                (subst (λ w. (r.store.get_recommendations user w).0 ≡ ok recs) (cc) e))
            (λ off. absurd (cc))
