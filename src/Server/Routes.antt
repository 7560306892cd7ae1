-- ===== src/Server/Routes.antt =====
-- services/recommendation-api/cmd/server/main.go: the routes of the recommendation API, with the
-- three handlers behind them. A path is one that the router of the HTTP library does not redirect.
use recsys_pipeline.Common.{
  ◌≤◌, ◌<◌, ◌≡◌, refl, ap, ◌∙◌, All-unit, length, Result, ok, err, panic, Action, of_result,
  Ensures, Ensures-mono, elems, if◌then◌else◌,
}
use recsys_pipeline.Common.Int.{pos}
use recsys_pipeline.Common.Text.{Text, text, same}
use recsys_pipeline.Common.Float.{Float}
use recsys_pipeline.Degradation.{emergency, number}
use recsys_pipeline.Dragonfly.{get_popular_items}
use recsys_pipeline.Dragonfly.Reads.{get_popular_items-length}
use recsys_pipeline.Handler.{
  Request, Response, Observed, handle_recommend, handle_popular, handle_health,
  new_recommend_handler, with_experiments, with_pinger,
}
use recsys_pipeline.Handler.Responses.{Within, GoodRecs, handle_popular-Within}
use recsys_pipeline.Handler.Reports.{IsReport, handle_popular-state, handle_health-IsReport}
use recsys_pipeline.Server.{World, Connections, handler}
use recsys_pipeline.Server.Serving.{ConnectionsRun, InStock, server-InStock}

pub data Route : Type 0 where
  recommend_route : Route
  popular_route : Route
  health_route : Route
  not_found : Route

-- The patterns of the router.
unfoldable pub route : Text → Route
route path =
    if same path (text "/api/v1/recommend")
    then recommend_route
    else if same path (text "/api/v1/popular")
    then popular_route
    else if same path (text "/health")
    then health_route
    else not_found

pub data Reply (F : Type 0) : Type 0 where
  answer : Response F → Reply F
  unrouted : Reply F

-- An answer with the property.
abbrev pub Answer : {F : Type 0} → (Response F → Type 0) → Reply F → Type 0
Answer P (answer r) = P r
Answer P unrouted = ⊥

answered : {σ F : Type 0} → Result (Response F) × σ → Result (Reply F) × σ
answered (ok r, s) = (ok (answer r), s)
answered (err e, s) = (err e, s)
answered (panic, s) = (panic, s)

-- A handler that records no metrics.
unmeasured : {σ A : Type 0} → Action σ A → Action (Observed σ) A
unmeasured m s = let (x, rest) = m s.rest in (x, record s { rest = rest })

module _ {F G : Type 0} ⦃f : Float F⦄ (c : Connections F G) where
  -- `NewPopularHandler` on the store.
  popular_handler : Request → Action (World F) (Response F)
  popular_handler = handle_popular (λ n. of_result (get_popular_items c.database n))

  unfoldable pub handled : Route → Request → Action (Observed (World F)) (Reply F)
  unfolding answered unmeasured popular_handler
  handled recommend_route req s = answered (handle_recommend (handler c) req s)
  handled popular_route req s = answered (unmeasured (popular_handler req) s)
  handled health_route req s = answered (unmeasured (handle_health (handler c)) s)
  handled not_found req s = (ok unrouted, s)

  unfoldable pub serve : Text → Request → Action (Observed (World F)) (Reply F)
  unfolding handled route
  serve path = handled (route path)

-- What a request is answered, by its route, in the state `s`.
abbrev pub IsAnswered :
    {F G : Type 0} ⦃f : Float F⦄ (c : Connections F G)
    → Route
    → Observed (World F)
    → Result (Reply F) × Observed (World F)
    → Type 0
IsAnswered c recommend_route s r = Ensures (Answer (Within (InStock c) 100)) r.0
IsAnswered c popular_route s r = Ensures (Answer (Within (λ _. Unit {0}) 100)) r.0 × (r.1 ≡ s)
IsAnswered c health_route s r = Ensures (Answer IsReport) r.0 × (r.1 ≡ s)
IsAnswered c not_found s r = r ≡ (ok unrouted, s)

module _ {σ F : Type 0} where
  answered-Answer :
      (P : Response F → Type 0) (r : Result (Response F) × σ)
      → Ensures P r.0
      → Ensures (Answer P) (answered r).0
  unfolding answered
  answered-Answer P (ok x, s) h = h
  answered-Answer P (err e, s) h = tt
  answered-Answer P (panic, s) h = h

  answered-state : (r : Result (Response F) × σ) → (answered r).1 ≡ r.1
  unfolding answered
  answered-state (ok x, s) = refl
  answered-state (err e, s) = refl
  answered-state (panic, s) = refl

module _ {σ F : Type 0} where
  unmeasured-Answer :
      (P : Response F → Type 0) (m : Action σ (Response F)) (s : Observed σ)
      → Ensures P (m s.rest).0 × ((m s.rest).1 ≡ s.rest)
      → Ensures (Answer P) (answered (unmeasured m s)).0 × ((answered (unmeasured m s)).1 ≡ s)
  unfolding unmeasured
  unmeasured-Answer P m s (h, e) = (
    answered-Answer P (unmeasured m s) h,
    answered-state (unmeasured m s) ∙ ap (λ t. record s { rest = t }) e,
  )

module _ {F G : Type 0} ⦃f : Float F⦄ (c : Connections F G) (runs : ConnectionsRun c) where
  handled-IsAnswered :
      (r : Route) (req : Request) (s : Observed (World F))
      → number s.rest.rest.rest.manager.level < number emergency
      → Ensures (λ _. Unit {0}) c.ping
      → IsAnswered c r s (handled c r req s)
  unfolding handled popular_handler handler new_recommend_handler with_experiments with_pinger
  handled-IsAnswered recommend_route req s below ping =
      answered-Answer (Within (InStock c) 100) _ (server-InStock c runs req s below)
  handled-IsAnswered popular_route req s below ping =
      unmeasured-Answer (Within (λ _. Unit {0}) 100) (popular_handler c req) s (
        handle_popular-Within (λ _. Unit {0}) (λ n. of_result (get_popular_items c.database n)) req
            s.rest
            λ n.
              Ensures-mono (λ recs. length (elems recs) ≤ n) (GoodRecs (λ _. Unit {0}) n)
                (get_popular_items c.database (pos n))
                (get_popular_items-length c.database runs.database_runs n)
                λ recs h. (All-unit (elems recs), h),
        handle_popular-state (get_popular_items c.database) req s.rest,
      )
  handled-IsAnswered health_route req s below ping =
      unmeasured-Answer IsReport (handle_health (handler c)) s
        (handle_health-IsReport (handler c) c.ping s.rest refl ping)
  handled-IsAnswered not_found req s below ping = refl

  -- Whatever the path, the request and the state of the breaker and of the caches, below the
  -- emergency level the server does not panic. On the route of the recommendations it answers with a
  -- failure of 400, 405 or 500 or with at most 100 items, none of which the stock bitmap calls out
  -- of stock; on that of the popular items with such a failure or at most 100 items, and on that of
  -- the health report with the status 200 or 503. The last two and unknown paths leave the state as
  -- it is. DragonflyDB and the decoders must not panic, and a pipelined command must have the reply
  -- that it has alone.
  pub serve-IsAnswered :
      (path : Text) (req : Request) (s : Observed (World F))
      → number s.rest.rest.rest.manager.level < number emergency
      → Ensures (λ _. Unit {0}) c.ping
      → IsAnswered c (route path) s (serve c path req s)
  unfolding serve
  serve-IsAnswered path = handled-IsAnswered (route path)
