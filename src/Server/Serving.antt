-- ===== src/Server/Serving.antt =====
-- What the server answers, on its real parts.
use recsys_pipeline.Common.{
  ◌≤◌, ◌<◌, ◌≡◌, true, some, length, All-unit, Ensures-mono, Runs, elems, arith,
}
use recsys_pipeline.Common.Int.{pos}
use recsys_pipeline.Common.Text.{Text, text, same}
use recsys_pipeline.Common.Float.{Float}
use recsys_pipeline.Degradation
use recsys_pipeline.Degradation.{Manager, emergency, number}
use recsys_pipeline.Dragonfly.{
  dragonfly_store, experiment_store, get_popular_items, list_active_experiments,
}
use recsys_pipeline.Dragonfly.Reads.{
  DatabaseRuns, get_recommendations-Ensures, get_popular_items-length, Listed,
  list_active_experiments-Listed,
}
use recsys_pipeline.Experiment.Caching.{get_experiment-Safe}
use recsys_pipeline.Handler.{
  Request, Observed, handle_recommend, new_recommend_handler, with_experiments, with_pinger,
}
use recsys_pipeline.Handler.Responses.{Within, ExperimenterRuns, GoodRecs, handle_recommend-Within}
use recsys_pipeline.Redis.{IsSnapshot}
use recsys_pipeline.Rerank.{default_weights}
use recsys_pipeline.Rerank.Contract.{RangeRuns, session_reranker-Keeps}
use recsys_pipeline.Stock.{bitmap_checker}
use recsys_pipeline.Stock.Filter.{OutOfStock, filter_out_of_stock_sound}
use recsys_pipeline.Tier.{
  Recs, Router, is_tier_allowed, allowed_by, recommend, new_router_with_ranker,
}
use recsys_pipeline.Tier.Limits.{Contract, recommend-limit, recommend-Served}
use recsys_pipeline.Triton.{new_client, new_grpc_client}
use recsys_pipeline.Triton.Batch.{ServerRuns}
use recsys_pipeline.Triton.Ranker.Contract.{protected_ranker-Keeps}
use recsys_pipeline.Server.{
  World, Connections, clock, checker, in_rest, triton_client, router, experimenter, handler,
}

module _ {F G : Type 0} ⦃f : Float F⦄ (c : Connections F G) where
  -- What the server relies on: no call of DragonflyDB or of a decoder panics, and a command in a
  -- pipeline has the reply that it has alone.
  pub record ConnectionsRun : Type 0 where
    pub database_runs : DatabaseRuns c.database
    pub sessions_run : RangeRuns (λ _. Unit {0}) c.sessions default_weights
    pub snapshot : IsSnapshot c.stock_replies

  abbrev pub InStock : Text → Type 0
  InStock id = ¬ OutOfStock c.stock_replies id

  triton_client-Runs : ServerRuns (triton_client c).grpc
  unfolding triton_client new_client new_grpc_client
  triton_client-Runs timeout req s = tt

  module _ (runs : ConnectionsRun) where
    router-Contract : Contract InStock (router c)
    unfolding router new_router_with_ranker dragonfly_store bitmap_checker checker
    router-Contract = record {
      popular = λ n s.
          Ensures-mono (λ recs. length (elems recs) ≤ n) (λ _. Unit {0})
            (get_popular_items c.database (pos n))
            (get_popular_items-length c.database runs.database_runs n) λ recs h. tt;
      cached = λ user s. get_recommendations-Ensures c.database runs.database_runs user;
      filtered = λ recs s. filter_out_of_stock_sound c.stock_replies runs.snapshot recs;
      reranked = session_reranker-Keeps InStock c.sessions default_weights runs.sessions_run;
      ranked =
          protected_ranker-Keeps c.widen c.zero32 clock InStock (triton_client c)
            triton_client-Runs;
      checked = λ name s. tt;
    }

    experimenter-Safe : ExperimenterRuns (some (experimenter c))
    unfolding experimenter in_rest experiment_store
    experimenter-Safe user s =
        get_experiment-Safe (λ p. p.now) c.gap (experiment_store c.database) user s.rest
          λ t.
            Ensures-mono (Listed c.database runs.database_runs) (λ _. Unit {0})
              (list_active_experiments c.database)
              (list_active_experiments-Listed c.database runs.database_runs) λ es h. tt

    -- Below the emergency level tier 1 is on.
    tier1_on :
        (s : World F)
        → number s.rest.rest.manager.level < number emergency
        → Runs (λ allowed. allowed ≡ true) (is_tier_allowed (router c) (text "tier1")) s
    unfolding router new_router_with_ranker recsys_pipeline.Tier.is_tier_allowed checker
        Degradation.is_tier_allowed same
    tier1_on s h = ground arith

    -- Whatever the request and the state of the breaker and of the caches, below the emergency
    -- level the server answers without a panic, with a failure of 400, 405 or 500 or with at most
    -- 100 items, none of which the stock bitmap calls out of stock. DragonflyDB and the decoders
    -- must not panic, and a pipelined command must have the reply that it has alone.
    pub server-InStock :
        (req : Request) (s : Observed (World F))
        → number s.rest.rest.rest.manager.level < number emergency
        → Runs (Within InStock 100) (handle_recommend (handler c) req) s
    unfolding handler new_recommend_handler with_experiments with_pinger
    server-InStock req s below =
        handle_recommend-Within InStock (handler c) req s experimenter-Safe λ user session n.
          recommend-Served InStock (router c) router-Contract user session n s.rest
            (tier1_on s.rest below)

    -- At any level, the emergency level too, the server answers without a panic, with a failure of
    -- 400, 405 or 500 or with at most 100 items, under the same conditions on DragonflyDB and the
    -- decoders.
    pub server-bounded :
        (req : Request) (s : Observed (World F))
        → Runs (Within (λ _. Unit {0}) 100) (handle_recommend (handler c) req) s
    unfolding handler new_recommend_handler with_experiments with_pinger
    server-bounded req s =
        handle_recommend-Within (λ _. Unit {0}) (handler c) req s experimenter-Safe
          λ user session n.
            Ensures-mono (λ x. length (elems x.0) ≤ n) (λ x. GoodRecs (λ _. Unit {0}) n x.0)
              (recommend (router c) user session (pos n) s.rest).0
              (recommend-limit InStock (router c) router-Contract user session n s.rest)
              λ x h. (All-unit (elems x.0), h)
