-- ===== src/Handler/Responses.antt =====
-- What the handlers answer, from what the recommender and the store promise.
use recsys_pipeline.Common.{
  ℕ, ◌≤◌, ◌≡◌, refl, ◌⊎◌, inl, inr, Option, none, some, List, [], length, All, Result, ok, err,
  panic, Action, Ensures, Runs, Safe, Slice, elems, non_nil, arith, Bool-cases,
}
use recsys_pipeline.Common.Int.{ℤ, pos}
use recsys_pipeline.Common.Text.{Text, text, same}
use recsys_pipeline.Tier.{Recommendation, Recs, Level}
use recsys_pipeline.Tier.Limits.{AllGood}
use recsys_pipeline.Experiment.{Experiment}
use recsys_pipeline.Handler.{
  Request, Response, failure, recommended, popular, health, Observed, RecommendHandler, Metric,
  unassigned, assignment, envelope, respond, handle_recommend, popular_items, handle_popular,
}
use recsys_pipeline.Handler.Limit.{query_limit-InRange}

-- A response with at most `n` items, all of them good, or a failure of the client or the server.
abbrev pub Within : {F : Type 0} → (Text → Type 0) → ℕ → Response F → Type 0
Within Good n (failure code message) = (code ≡ 405) ⊎ (code ≡ 400) ⊎ (code ≡ 500)
Within Good n (recommended items level experiment model) =
    All (λ x. Good x.item_id) items × (length items ≤ n)
Within Good n (popular items level) = All (λ x. Good x.item_id) items × (length items ≤ n)
Within Good n (health code status dragonfly) = ⊥

abbrev pub ExperimenterRuns :
    {σ F : Type 0} → Option (Text → Action σ (Option (Experiment F))) → Type 0
ExperimenterRuns none = Unit
ExperimenterRuns {σ} (some get) = (user : Text) (s : σ) → Safe (get user) s

non_nil-elems : {A : Type 0} (s : Slice A) → elems (non_nil s) ≡ elems s
non_nil-elems none = refl
non_nil-elems (some xs) = refl

-- Good items, and no more than `n`.
abbrev pub GoodRecs : {F : Type 0} → (Text → Type 0) → ℕ → Recs F → Type 0
GoodRecs Good n recs = AllGood Good recs × (length (elems recs) ≤ n)

module _ {σ F : Type 0} (Good : Text → Type 0) (n : ℕ) where
  unassigned-Safe :
      (r : Result (Option (Experiment F)) × σ)
      → Ensures (λ _. Unit {0}) r.0
      → Ensures (λ _. Unit {0}) (unassigned r).0
  unfolding unassigned
  unassigned-Safe (ok e, t) h = tt
  unassigned-Safe (err x, t) h = tt
  unassigned-Safe (panic, t) h = h

  assignment-Safe :
      (e : Option (Text → Action σ (Option (Experiment F)))) (user : Text) (t : σ)
      → ExperimenterRuns e
      → Safe (assignment e user) t
  unfolding assignment
  assignment-Safe none user t h = tt
  assignment-Safe (some get) user t h = unassigned-Safe (get user t) (h user t)

  envelope-Within :
      (items : List (Recommendation F)) (level : Level) (ms : List Metric)
      (r : Result (Option (Experiment F)) × σ)
      → All (λ x. Good x.item_id) items × (length items ≤ n)
      → Ensures (λ _. Unit {0}) r.0
      → Ensures (Within Good n) (envelope items level ms r).0
  unfolding envelope
  envelope-Within items level ms (ok e, t) h g = h
  envelope-Within items level ms (err x, t) h g = tt
  envelope-Within items level ms (panic, t) h g = g

  respond-Within :
      (h : RecommendHandler σ F) (user : Text) (ms : List Metric) (r : Result (Recs F × Level) × σ)
      → ExperimenterRuns h.experimenter
      → Ensures (λ x. GoodRecs Good n x.0) r.0
      → Ensures (Within Good n) (respond h user ms r).0
  unfolding respond
  respond-Within h user ms (ok (items, level), t) runs good =
      envelope-Within (elems (non_nil items)) level _ (assignment h.experimenter user t)
        (rw (non_nil-elems items) good) (assignment-Safe h.experimenter user t runs)
  respond-Within h user ms (err e, t) runs good = inr (inr refl)
  respond-Within h user ms (panic, t) runs good = good

  popular_items-Within :
      (r : Result (Recs F) × σ)
      → Ensures (GoodRecs Good n) r.0
      → Ensures (Within Good n) (popular_items r).0
  unfolding popular_items
  popular_items-Within (ok items, t) good = rw (non_nil-elems items) good
  popular_items-Within (err e, t) good = inr (inr refl)
  popular_items-Within (panic, t) good = good

module _ {F : Type 0} (Good : Text → Type 0) where
  wider :
      (n m : ℕ) (r : Result (Response F))
      → n ≤ m
      → Ensures (Within Good n) r
      → Ensures (Within Good m) r
  wider n m (ok (failure code message)) le h = h
  wider n m (ok (recommended items a b c)) le (g, h) = (g, omega arith)
  wider n m (ok (popular items a)) le (g, h) = (g, omega arith)
  wider n m (ok (health a b c)) le h = h
  wider n m (err e) le h = tt
  wider n m panic le h = h

module _ {σ F : Type 0} (Good : Text → Type 0) where
  -- Whatever the request, the handler neither panics nor returns more than 100 items, all of them
  -- good, or it answers 400, 405 or 500; if this is so of the recommender at every limit, and the
  -- experimenter does not panic.
  pub handle_recommend-Within :
      (h : RecommendHandler σ F) (req : Request) (s : Observed σ)
      → ExperimenterRuns h.experimenter
      → ((user session : Text) (n : ℕ)
          → Runs (λ x. GoodRecs Good n x.0) (h.recommender user session (pos n)) s.rest)
      → Runs (Within Good 100) (handle_recommend h req) s
  unfolding handle_recommend
  handle_recommend-Within h req s runs good = elim (Bool-cases (same req.method (text "GET"))) [
    | inr e ↦ rw e (inl refl)
    | inl e ↦ rw e (elim (Bool-cases (same req.user_id [])) [
      | inl k ↦ rw k (inr (inl refl))
      | inr k ↦
          let r = query_limit-InRange req.limit in
          rw (k, r.same_number)
            (wider Good r.number 100 _ r.bounded (
              respond-Within Good r.number h req.user_id s.metrics _ runs
                (good req.user_id req.session_id r.number)))
    ])
  ]

  -- The same of the handler of popular items and its store.
  pub handle_popular-Within :
      (get : ℤ → Action σ (Recs F)) (req : Request) (s : σ)
      → ((n : ℕ) → Runs (GoodRecs Good n) (get (pos n)) s)
      → Runs (Within Good 100) (handle_popular get req) s
  unfolding handle_popular
  handle_popular-Within get req s good = elim (Bool-cases (same req.method (text "GET"))) [
    | inr e ↦ rw e (inl refl)
    | inl e ↦
        let r = query_limit-InRange req.limit in
        rw (e, r.same_number)
          (wider Good r.number 100 _ r.bounded
            (popular_items-Within Good r.number _ (good r.number)))
  ]
