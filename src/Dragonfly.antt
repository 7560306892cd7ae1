-- ===== src/Dragonfly.antt =====
-- services/recommendation-api/internal/store/dragonfly.go: the store on top of DragonflyDB, whose
-- replies and whose JSON decoders are parameters.
pub mod Reads
mod Tests
use recsys_pipeline.Common.{
  ℕ, Bool, true, false, Option, none, some, List, [], ◌∷◌, map, length, Result, ok, err, panic,
  Error, Action, of_result, Slice, elems, truncate, ◌==◌, if◌then◌else◌,
}
use recsys_pipeline.Common.Int.{ℤ}
use recsys_pipeline.Common.Text.{Text, text}
use recsys_pipeline.Keys.{rec_top_k, experiment_config, experiment_active_list}
use recsys_pipeline.Redis.{Reply, value, missing, failed}
use recsys_pipeline.Tier.{Recs, Store}
use recsys_pipeline.Experiment.{Experiment}
use recsys_pipeline.Experiment

-- GET, SMEMBERS and MGET, where a value of MGET that is nil or no string is `none`; and
-- `json.Unmarshal` into recommendations (which is nil for the text null) and into an experiment.
pub record Database (F : Type 0) : Type 0 where
  pub get : Text → Reply Text
  pub members : Text → Result (List Text)
  pub get_all : List Text → Result (List (Option Text))
  pub decode_recs : Text → Result (Recs F)
  pub decode_experiment : Text → Option (Experiment F)

-- The value of a key, decoded; a missing key is nil without an error.
unfoldable pub decoded : {F : Type 0} → Database F → Reply Text → Result (Recs F)
decoded db (value json) = db.decode_recs json
decoded db missing = ok none
decoded db (failed e) = err e

-- The truncation at the end of `GetPopularItems`.
unfoldable pub cut_to : {F : Type 0} → ℤ → Result (Recs F) → Result (Recs F)
cut_to limit (ok recs) = truncate limit recs
cut_to limit (err e) = err e
cut_to limit panic = panic

-- The loop over the values: those that are experiments.
add_experiment : {F : Type 0} → Option (Experiment F) → List (Experiment F) → List (Experiment F)
add_experiment none rest = rest
add_experiment (some e) rest = e ∷ rest

decode_value : {F : Type 0} → Database F → Option Text → Option (Experiment F)
decode_value db none = none
decode_value db (some json) = db.decode_experiment json

experiments_of : {F : Type 0} → Database F → List (Option Text) → List (Experiment F)
unfolding add_experiment decode_value
experiments_of db [] = []
experiments_of db (v ∷ vs) = add_experiment (decode_value db v) (experiments_of db vs)

after_values :
    {F : Type 0} → Database F → Result (List (Option Text)) → Result (Slice (Experiment F))
unfolding experiments_of
after_values db (ok values) = ok (some (experiments_of db values))
after_values db (err e) = err e
after_values db panic = panic

after_members : {F : Type 0} → Database F → Result (List Text) → Result (Slice (Experiment F))
unfolding after_values
after_members db (ok []) = ok (some [])
after_members db (ok (id ∷ ids)) = after_values db (db.get_all (map experiment_config (id ∷ ids)))
after_members db (err e) = err e
after_members db panic = panic

module _ {F : Type 0} (db : Database F) where
  unfoldable pub get_recommendations : Text → Result (Recs F)
  unfolding decoded
  get_recommendations user = decoded db (db.get (rec_top_k user))

  unfoldable pub get_popular_items : ℤ → Result (Recs F)
  unfolding decoded cut_to
  get_popular_items limit = cut_to limit (decoded db (db.get (rec_top_k (text "popular"))))

  unfoldable pub list_active_experiments : Result (Slice (Experiment F))
  unfolding after_members
  list_active_experiments = after_members db (db.members experiment_active_list)

  -- The store as the router and as the experiment router see it.
  unfoldable pub dragonfly_store : {σ : Type 0} → Store σ F
  unfolding get_recommendations get_popular_items
  dragonfly_store = record {
    get_recommendations = λ user. of_result (get_recommendations user);
    get_popular_items = λ limit. of_result (get_popular_items limit);
  }

  unfoldable pub experiment_store : {σ : Type 0} → Experiment.Store σ F
  unfolding list_active_experiments
  experiment_store = record { list_active_experiments = of_result list_active_experiments }
