-- ===== src/Server/Tests.antt =====
-- A server with three popular items, of which the second is sold out, and no session data.
use recsys_pipeline.Common.{
  ℕ, ◌≡◌, refl, some, none, Option, [], ◌∷◌, get_elem?, ok, truncate, arith, if◌then◌else◌, ◌==◌,
}
use recsys_pipeline.Common.Int.{ℤ, pos, negsuc}
use recsys_pipeline.Common.Text.{Text, text, same}
use recsys_pipeline.Common.Float.{Tenths, tenths}
use recsys_pipeline.Breaker
use recsys_pipeline.Breaker.{allow, record_failure}
use recsys_pipeline.Degradation
use recsys_pipeline.Degradation.{new_manager}
use recsys_pipeline.Dragonfly.{
  Database, dragonfly_store, experiment_store, get_recommendations, get_popular_items,
  list_active_experiments,
}
use recsys_pipeline.Experiment
use recsys_pipeline.Experiment.{Experiment}
use recsys_pipeline.Handler.{
  Request, recommended, popular, handle_popular, Observed, observed, handle_recommend,
  new_recommend_handler, with_experiments, with_pinger, query_limit,
}
use recsys_pipeline.Keys.{rec_top_k, stock_id_map, stock_bitmap}
use recsys_pipeline.Redis.{Redis, Reply, value, missing}
use recsys_pipeline.Rerank.{Sessions}
use recsys_pipeline.Strconv.{parse_int}
use recsys_pipeline.Stock.{filter_out_of_stock, bitmap_checker}
use recsys_pipeline.Tier.{Recommendation, Recs, recommend, new_router_with_ranker, level_text}
use recsys_pipeline.Triton.{new_client, new_grpc_client, score_batch}
use recsys_pipeline.Triton.Ranker.{rank, protected_ranker}
use recsys_pipeline.Server.{World, Connections, handler, router, experimenter, triton_client, start}
use recsys_pipeline.Server.Serving.{ConnectionsRun}
use recsys_pipeline.Server.Routes.{
  answer, route, recommend_route, popular_route, health_route, not_found, serve, IsAnswered,
  serve-IsAnswered,
}

abbrev item : Text → Recommendation Tenths
item id = record { item_id = id; score = some (pos 10) }

abbrev three : Recs Tenths
three = some (item (text "i_1") ∷ item (text "i_2") ∷ item (text "i_3") ∷ [])

abbrev database : Database Tenths
database = record {
  get = λ key. if same key (text "rec:popular:top_k") then value (text "[]") else missing;
  members = λ key. ok [];
  get_all = λ ks. ok [];
  decode_recs = λ json. ok three;
  decode_experiment = λ json. none;
}

abbrev lookup : Text → Reply Text
lookup key = if same key (text "stock:id_map:i_2") then value (text "1") else missing

abbrev lookup_at : Option Text → Reply Text
lookup_at none = missing
lookup_at (some key) = lookup key

abbrev bit : ℤ → Reply ℕ
bit (pos n) = value (if n == 1 then 1 else 0)
bit (negsuc n) = missing

abbrev bit_at : Option ℤ → Reply ℕ
bit_at none = missing
bit_at (some offset) = bit offset

abbrev stock : Redis
stock = record {
  get = lookup;
  get_bit = λ key offset. bit offset;
  pipeline_get = λ ks i. lookup_at (get_elem? ks i);
  pipeline_get_bit = λ key os i. bit_at (get_elem? os i);
}

abbrev sessions : Sessions Tenths
sessions = record {
  rev_range = λ key a b. ok [];
  decode = λ json. none;
  to_int64 = λ x. pos 0;
  now = pos 0;
}

abbrev connections : Connections Tenths Tenths
connections = record {
  database = database;
  stock_replies = stock;
  sessions = sessions;
  triton_addr = text "localhost:8001";
  widen = λ x. x;
  zero32 = some (pos 0);
  gap = λ w. w;
  ping = ok tt;
}

connections-Run : ConnectionsRun connections
connections-Run = record {
  database_runs = record {
    members_run = λ key. tt;
    get_all_runs = λ ks. tt;
    decoder_runs = λ json. tt;
  };
  sessions_run = λ key a b. tt;
  snapshot = record { get_alone = λ ks i k e. rw e; get_bit_alone = λ k os i o e. rw e };
}

abbrev request : Request
request = record { method = text "GET"; user_id = text "u_1"; session_id = []; limit = text "2" }

abbrev at_start : Observed (World Tenths)
at_start = observed [] (start 0)

-- Triton is a stub, and the popular items are cut to two before the one that is sold out is dropped:
-- the answer is one item, at the fallback.
first_answer :
    (handle_recommend (handler connections) request at_start).0
    ≡ ok (recommended (item (text "i_1") ∷ []) (text "fallback_popular") [] [])
unfolding handle_recommend handler new_recommend_handler with_experiments with_pinger query_limit
    recommend router new_router_with_ranker level_text recsys_pipeline.Tier.is_tier_allowed
    Degradation.is_tier_allowed experimenter start Breaker.new Experiment.new_router new_manager
    dragonfly_store bitmap_checker filter_out_of_stock get_recommendations get_popular_items
    rec_top_k stock_id_map stock_bitmap parse_int same truncate protected_ranker rank allow
    triton_client new_client new_grpc_client score_batch Experiment.get_experiment
    Experiment.load_experiments Experiment.hash_bucket Experiment.assign experiment_store
    list_active_experiments recsys_pipeline.Strconv.atoi recsys_pipeline.Triton.validate_dimensions
first_answer = refl

routes :
    (route (text "/api/v1/recommend") ≡ recommend_route)
    × (route (text "/api/v1/popular") ≡ popular_route)
    × (route (text "/health") ≡ health_route)
    × (route (text "/metrics") ≡ not_found)
unfolding route same
routes = (refl, refl, refl, refl)

-- The popular items are not filtered by stock.
popular_answer :
    (serve connections (text "/api/v1/popular") request at_start).0
    ≡ ok (answer (popular (item (text "i_1") ∷ item (text "i_2") ∷ []) (text "tier0_popular")))
unfolding serve handle_popular query_limit get_popular_items parse_int same truncate route
    recsys_pipeline.Strconv.atoi rec_top_k
popular_answer = refl

serve-IsAnswered_example :
    IsAnswered connections
      (route (text "/api/v1/recommend"))
      at_start
      (serve connections (text "/api/v1/recommend") request at_start)
unfolding start new_manager
serve-IsAnswered_example =
    serve-IsAnswered connections connections-Run (text "/api/v1/recommend") request at_start
      (omega arith) tt
