-- ===== src/Server.antt =====
-- services/recommendation-api/cmd/server/main.go: the recommendation API put together from its
-- parts. The state of the process is the breaker, the cache of experiments, the degradation manager
-- and the clock.
pub mod Serving
pub mod Seeded
pub mod Routes
mod Tests
use recsys_pipeline.Common.{ℕ, Option, none, some, Result, ok, err, panic, Action, of_result, Slice}
use recsys_pipeline.Common.Int.{ℤ}
use recsys_pipeline.Common.Text.{Text, text}
use recsys_pipeline.Common.Float.{Float}
use recsys_pipeline.Breaker
use recsys_pipeline.Breaker.{Breaker}
use recsys_pipeline.Degradation
use recsys_pipeline.Degradation.{Manager, new_manager}
use recsys_pipeline.Dragonfly.{Database, dragonfly_store, experiment_store}
use recsys_pipeline.Experiment
use recsys_pipeline.Experiment.{Experiment, Cache, get_experiment}
use recsys_pipeline.Handler.{RecommendHandler, new_recommend_handler, with_experiments, with_pinger}
use recsys_pipeline.Redis.{Redis}
use recsys_pipeline.Rerank.{Sessions, default_weights, session_reranker}
use recsys_pipeline.Stock.{bitmap_checker}
use recsys_pipeline.Tier.{Recs, Router, DegradationChecker, new_router_with_ranker, recommend}
use recsys_pipeline.Triton.{Client, new_client, new_grpc_client, default_timeout}
use recsys_pipeline.Triton.Ranker.{Guarded, protected_ranker}

pub record Process : Type 0 where
  pub manager : Manager
  pub now : ℕ

-- The state behind the breaker.
abbrev pub Inner : Type 0 → Type 0
Inner F = Experiment.World Process F

abbrev pub World : Type 0 → Type 0
World F = Guarded (Inner F)

-- What the server is connected to: DragonflyDB as each part reads it, the address of Triton, the
-- conversion of its scores, 0.0, and what other goroutines do while a load of experiments waits.
pub record Connections (F G : Type 0) : Type 0 where
  pub database : Database F
  pub stock_replies : Redis
  pub sessions : Sessions F
  pub triton_addr : Text
  pub widen : G → F
  pub zero32 : G
  pub gap : Inner F → Inner F
  pub ping : Result (Unit {0})

pub clock : {F : Type 0} → Inner F → ℕ
clock w = w.rest.now

-- The degradation manager of the process, as the router sees it.
pub checker : {F : Type 0} → DegradationChecker (World F)
checker = record {
  is_tier_allowed = λ name s. (ok (Degradation.is_tier_allowed name s.rest.rest.manager), s);
}

-- An action on the state behind the breaker.
in_rest : {ρ A : Type 0} → Action ρ A → Action (Guarded ρ) A
in_rest m s = let (x, rest) = m s.rest in (x, record s { rest = rest })

module _ {F G : Type 0} ⦃f : Float F⦄ (c : Connections F G) where
  unfoldable pub triton_client : Client (Inner F) G
  unfolding new_client
  triton_client = new_client (some (new_grpc_client c.triton_addr)) default_timeout

  unfoldable pub router : Router (World F) F
  unfolding new_router_with_ranker checker clock
  router =
      new_router_with_ranker (dragonfly_store c.database) (bitmap_checker c.stock_replies)
        (some (session_reranker c.sessions default_weights)) (some checker)
        (some (protected_ranker c.widen c.zero32 clock triton_client))

  unfoldable pub experimenter : Text → Action (World F) (Option (Experiment F))
  unfolding in_rest
  experimenter user = in_rest (get_experiment (λ p. p.now) c.gap (experiment_store c.database) user)

  unfoldable pub handler : RecommendHandler (World F) F
  unfolding new_recommend_handler with_pinger with_experiments
  handler =
      with_experiments experimenter
        (with_pinger (of_result c.ping) (new_recommend_handler (recommend router)))

-- The state in which the server starts.
unfoldable pub start : {F : Type 0} → ℕ → World F
unfolding Breaker.new Experiment.new_router new_manager
start t = record {
  breaker = Breaker.new (text "triton") 5 30000000000;
  rest = record { cache = Experiment.new_router; rest = record { manager = new_manager; now = t } };
}
