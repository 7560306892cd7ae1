-- ===== src/Dragonfly/Tests.antt =====
-- A database whose only recommendations are the popular ones, three of them.
use recsys_pipeline.Common.{ℕ, ◌≡◌, refl, some, none, [], ◌∷◌, ok, truncate, if◌then◌else◌}
use recsys_pipeline.Common.Int.{pos}
use recsys_pipeline.Common.Text.{Text, text, same}
use recsys_pipeline.Keys.{rec_top_k, experiment_config}
use recsys_pipeline.Redis.{value, missing}
use recsys_pipeline.Tier.{Recommendation, Recs}
use recsys_pipeline.Experiment.{Experiment}
use recsys_pipeline.Dragonfly.{
  Database, get_recommendations, get_popular_items, list_active_experiments,
}
use recsys_pipeline.Dragonfly.Reads.{DatabaseRuns}

abbrev item : Text → Recommendation ℕ
item id = record { item_id = id; score = 1 }

abbrev three : Recs ℕ
three = some (item (text "i_1") ∷ item (text "i_2") ∷ item (text "i_3") ∷ [])

abbrev experiment : Text → Experiment ℕ
experiment id = record { id = id; model_version = []; traffic_pct = 10; tier_config = [] }

-- The set of active experiments names two, and the configuration of the second is missing.
abbrev database : Database ℕ
database = record {
  get = λ key. if same key (text "rec:popular:top_k") then value (text "[]") else missing;
  members = λ key. ok (text "a" ∷ text "b" ∷ []);
  get_all = λ ks. ok (some (text "{}") ∷ none ∷ []);
  decode_recs = λ json. ok three;
  decode_experiment = λ json. some (experiment (text "a"));
}

database-Runs : DatabaseRuns database
database-Runs = record {
  members_run = λ key. tt;
  get_all_runs = λ ks. tt;
  decoder_runs = λ json. tt;
}

reads :
    (get_recommendations database (text "u_1") ≡ ok none)
    × (get_popular_items database (pos 2) ≡ ok (some (item (text "i_1") ∷ item (text "i_2") ∷ [])))
    × (list_active_experiments database ≡ ok (some (experiment (text "a") ∷ [])))
unfolding get_recommendations get_popular_items list_active_experiments rec_top_k experiment_config
    same truncate
reads = (refl, refl, refl)
