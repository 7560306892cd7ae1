-- ===== src/Tier/Hits.antt =====
-- A cache hit of a request that names no session.
use recsys_pipeline.Common.{◌≡◌, refl, true, false, Option, none, some, [], ok, truncate}
use recsys_pipeline.Common.Int.{ℤ}
use recsys_pipeline.Common.Text.{Text, text, same}
use recsys_pipeline.Tier.{
  Level, tier1, Recs, Reranker, Ranker, Router, is_tier_allowed, is_empty, candidates, first_level,
  rerank_step, rank_step, serve, pipeline, recommend,
}

module _ {σ F : Type 0} (r : Router σ F) (user : Text) where
  no_session :
      (rr : Option (Reranker σ F)) (level : Level) (recs : Recs F) (s : σ)
      → rerank_step r rr user [] level recs s ≡ (ok (recs, level), s)
  unfolding rerank_step same
  no_session none level recs s = refl
  no_session (some rr) level recs s = refl

  no_miss :
      (rk : Option (Ranker σ F)) (level : Level) (recs : Recs F) (s : σ)
      → rank_step r rk user false level recs s ≡ (ok (recs, level), s)
  unfolding rank_step
  no_miss none level recs s = refl
  no_miss (some rk) level recs s = refl

  -- What is in stock of the cached recommendations, cut to the limit, at tier 1.
  pub recommend_hit :
      (limit : ℤ) (recs stocked cut : Recs F) (s s1 s2 s3 : σ)
      → is_tier_allowed r (text "tier1") s ≡ (ok true, s1)
      → r.store.get_recommendations user s1 ≡ (ok recs, s2)
      → is_empty recs ≡ false
      → r.stock.filter_out_of_stock recs s2 ≡ (ok stocked, s3)
      → truncate limit stocked ≡ ok cut
      → recommend r user [] limit s ≡ (ok (cut, tier1), s3)
  unfolding recommend pipeline candidates serve
  recommend_hit limit recs stocked cut s s1 s2 s3 on found some_found filtered fits =
      rw
        (
          on,
          found,
          some_found,
          filtered,
          no_session r.reranker (first_level false) stocked s3,
          no_miss r.ranker tier1 stocked s3,
          fits,
        )
        refl
