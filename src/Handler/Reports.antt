-- ===== src/Handler/Reports.antt =====
-- The handlers that record no metrics: popular items and the health report.
use recsys_pipeline.Common.{
  ◌≡◌, refl, ◌⊎◌, inl, inr, some, Result, ok, err, panic, of_result, Ensures, Bool-cases,
}
use recsys_pipeline.Common.Int.{ℤ}
use recsys_pipeline.Common.Text.{text, same}
use recsys_pipeline.Tier.{Recs}
use recsys_pipeline.Handler.{
  Request, Response, failure, recommended, popular, health, RecommendHandler, query_limit,
  popular_items, handle_popular, ping_report, health_with, handle_health,
}

-- A health report with one of its two statuses.
abbrev pub IsReport : {F : Type 0} → Response F → Type 0
IsReport (health code status dragonfly) = (code ≡ 200) ⊎ (code ≡ 503)
IsReport (failure code message) = ⊥
IsReport (recommended items a b c) = ⊥
IsReport (popular items a) = ⊥

ping_report-IsReport :
    {σ : Type 0} (F : Type 0) (r : Result (Unit {0})) (s : σ)
    → Ensures (λ _. Unit {0}) r
    → Ensures (IsReport {F = F}) (ping_report (r, s)).0 × ((ping_report {F = F} (r, s)).1 ≡ s)
unfolding ping_report
ping_report-IsReport F (ok x) s h = (inl refl, refl)
ping_report-IsReport F (err e) s h = (inr refl, refl)
ping_report-IsReport F panic s h = (h, refl)

module _ {σ F : Type 0} where
  popular_items-state : (r : Result (Recs F)) (s : σ) → (popular_items (r, s)).1 ≡ s
  unfolding popular_items
  popular_items-state (ok items) s = refl
  popular_items-state (err e) s = refl
  popular_items-state panic s = refl

  -- On a store whose reads have no side effects, the handler of popular items has none.
  pub handle_popular-state :
      (get : ℤ → Result (Recs F)) (req : Request) (s : σ)
      → (handle_popular (λ n. of_result (get n)) req s).1 ≡ s
  unfolding handle_popular
  handle_popular-state get req s = elim (Bool-cases (same req.method (text "GET"))) [
    | inr e ↦ rw e refl
    | inl e ↦ rw e (popular_items-state (get (query_limit req.limit)) s)
  ]

  -- With a pinger that has no side effects and does not panic, the health report has the status 200
  -- or 503, and the state stays as it is.
  pub handle_health-IsReport :
      (h : RecommendHandler σ F) (ping : Result (Unit {0})) (s : σ)
      → h.pinger ≡ some (of_result ping)
      → Ensures (λ _. Unit {0}) ping
      → Ensures IsReport (handle_health h s).0 × ((handle_health h s).1 ≡ s)
  unfolding handle_health health_with
  handle_health-IsReport h ping s e runs = rw e (ping_report-IsReport F ping s runs)
