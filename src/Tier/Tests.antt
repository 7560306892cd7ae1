-- ===== src/Tier/Tests.antt =====
-- The router on concrete dependencies. The state counts the calls of the ranker.
use recsys_pipeline.Common.{
  ℕ, suc, ◌≡◌, ◌≢◌, ◌≤◌, refl, Bool, true, false, none, some, List, [], ◌∷◌, All, keep, not, ok,
  err, Runs, Yields, elems, truncate, length, arith, if◌then◌else◌, Bool-cases, inl, inr,
}
use recsys_pipeline.Common.Int.{pos}
use recsys_pipeline.Common.Text.{Text, text, same, same_iff}
use recsys_pipeline.Tier.{
  tier1, tier2, tier3, fallback, Recommendation, Recs, Store, StockChecker, Reranker, Ranker,
  DegradationChecker, Router, new_router_with_ranker, is_tier_allowed, recommend,
}
use recsys_pipeline.Tier.Limits.{Contract, Served, recommend-limit, recommend-Served}
use recsys_pipeline.Tier.Levels.{LevelFor, recommend-level}
use recsys_pipeline.Tier.Failures.{with_ranker, without_ranker, recommend-failed_ranker}

abbrev item : Text → Recommendation ℕ
item id = record { item_id = id; score = 1 }

abbrev sold_out : Text
sold_out = text "i_2"

abbrev popular : Recs ℕ
popular = some (item (text "i_1") ∷ item (text "i_2") ∷ item (text "i_3") ∷ item (text "i_4") ∷ [])

-- Only the user "u" has cached recommendations.
abbrev store : Store ℕ ℕ
store = record {
  get_recommendations = λ user s. (
    ok (if same user (text "u") then some (item (text "i_2") ∷ item (text "i_5") ∷ []) else none),
    s,
  );
  get_popular_items = λ limit s. (ok popular, s);
}

-- The test of a stock filter that drops one item.
abbrev available : Recommendation ℕ → Bool
available x = not (same x.item_id sold_out)

abbrev stock : StockChecker ℕ ℕ
stock = record {
  is_out_of_stock = λ id s. (ok (same id sold_out), s);
  filter_out_of_stock = λ recs s. (ok (some (keep available (elems recs))), s);
}

abbrev reranker : Reranker ℕ ℕ
reranker = record { rerank = λ user session recs s. (ok recs, s) }

abbrev ranker : Ranker ℕ ℕ
ranker = record { rank = λ user recs calls. (ok recs, suc calls) }

abbrev broken : Ranker ℕ ℕ
broken = record { rank = λ user recs calls. (err (text "down"), suc calls) }

abbrev everything_on : DegradationChecker ℕ
everything_on = record { is_tier_allowed = λ name s. (ok true, s) }

abbrev full : Router ℕ ℕ
unfolding new_router_with_ranker
full = new_router_with_ranker store stock (some reranker) (some everything_on) (some ranker)

-- A hit is served at tier 1, with a session at tier 2; a miss at tier 3, and at the fallback if the
-- ranker fails.
four_levels :
    (recommend full (text "u") [] (pos 2) 0 ≡ (ok (some (item (text "i_5") ∷ []), tier1), 0))
    × (recommend full (text "u") (text "s") (pos 2) 0
        ≡ (ok (some (item (text "i_5") ∷ []), tier2), 0))
    × (recommend full (text "v") (text "s") (pos 2) 0
        ≡ (ok (some (item (text "i_1") ∷ item (text "i_3") ∷ []), tier3), 1))
    × (recommend (with_ranker full broken) (text "v") [] (pos 2) 0
        ≡ (ok (some (item (text "i_1") ∷ item (text "i_3") ∷ []), fallback), 1))
unfolding recommend new_router_with_ranker same truncate
four_levels = (refl, refl, refl, refl)

abbrev Good : Text → Type 0
Good id = id ≢ sold_out

keep-Good : (xs : List (Recommendation ℕ)) → All (λ x. Good x.item_id) (keep available xs)
keep-Good [] = tt
keep-Good (x ∷ xs) = elim (Bool-cases (same x.item_id sold_out)) [
  | inl e ↦ rw e (keep-Good xs)
  | inr e ↦ rw e ((λ same_id. ground (arith, same_iff x.item_id sold_out)), keep-Good xs)
]

full-Contract : Contract Good full
unfolding new_router_with_ranker
full-Contract = record {
  popular = λ n s. tt;
  cached = λ user s. tt;
  filtered = λ recs s. keep-Good (elems recs);
  reranked = λ user session recs s h. h;
  ranked = λ user recs s h. h;
  checked = λ name s. tt;
}

recommend-limit_example :
    Runs (λ x. length (elems x.0) ≤ 2) (recommend full (text "v") (text "s") (pos 2)) 0
recommend-limit_example = recommend-limit Good full full-Contract (text "v") (text "s") 2 0

recommend-Served_example :
    Runs (Served Good full full-Contract 2) (recommend full (text "v") (text "s") (pos 2)) 0
unfolding is_tier_allowed new_router_with_ranker
recommend-Served_example = recommend-Served Good full full-Contract (text "v") (text "s") 2 0 refl

recommend-level_example :
    Yields (λ x. LevelFor true false x.1) (recommend full (text "v") (text "s") (pos 2)) 0
unfolding is_tier_allowed new_router_with_ranker same
recommend-level_example = recommend-level full (text "v") (text "s") (pos 2) none 0 0 refl refl

recommend-failed_ranker_example :
    (recommend (with_ranker full broken) (text "v") (text "s") (pos 2) 0).0
    ≡ (recommend (without_ranker full) (text "v") (text "s") (pos 2) 0).0
unfolding is_tier_allowed new_router_with_ranker
recommend-failed_ranker_example =
    recommend-failed_ranker full broken (text "v") (text "s") (pos 2) 0 (λ t. (true, refl))
      λ x t. (text "down", refl)
