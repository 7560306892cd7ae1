-- ===== src/Dragonfly/Reads.antt =====
-- What the store returns.
use recsys_pipeline.Common.{
  ℕ, ◌≤◌, Option, none, some, List, [], ◌∷◌, map, length, All, All-unit, Result, ok, err, panic,
  Ensures, Ensures-mono, Slice, elems, truncate, truncate-Ensures,
}
use recsys_pipeline.Common.Int.{pos}
use recsys_pipeline.Common.Text.{Text}
use recsys_pipeline.Keys.{rec_top_k, experiment_config, experiment_active_list}
use recsys_pipeline.Redis.{Reply, value, missing, failed}
use recsys_pipeline.Tier.{Recs}
use recsys_pipeline.Experiment.{Experiment}
use recsys_pipeline.Dragonfly.{
  Database, decoded, cut_to, after_values, after_members, get_recommendations, get_popular_items,
  list_active_experiments,
}

-- Neither the driver nor the decoder panics.
pub record DatabaseRuns {F : Type 0} (db : Database F) : Type 0 where
  pub members_run : (key : Text) → Ensures (λ _. Unit {0}) (db.members key)
  pub get_all_runs : (ks : List Text) → Ensures (λ _. Unit {0}) (db.get_all ks)
  pub decoder_runs : (json : Text) → Ensures (λ _. Unit {0}) (db.decode_recs json)

module _ {F : Type 0} (db : Database F) (runs : DatabaseRuns db) where
  decoded-Ensures : (r : Reply Text) → Ensures (λ _. Unit {0}) (decoded db r)
  unfolding decoded
  decoded-Ensures (value json) = runs.decoder_runs json
  decoded-Ensures missing = tt
  decoded-Ensures (failed e) = tt

  pub get_recommendations-Ensures :
      (user : Text) → Ensures (λ _. Unit {0}) (get_recommendations db user)
  unfolding get_recommendations
  get_recommendations-Ensures user = decoded-Ensures (db.get (rec_top_k user))

  cut_to-Ensures :
      (n : ℕ) (r : Result (Recs F))
      → Ensures (λ _. Unit {0}) r
      → Ensures (λ recs. length (elems recs) ≤ n) (cut_to (pos n) r)
  unfolding cut_to
  cut_to-Ensures n (ok recs) h =
      Ensures-mono (λ x. All (λ _. Unit {0}) (elems x) × (length (elems x) ≤ n))
        (λ x. length (elems x) ≤ n) (truncate (pos n) recs)
        (truncate-Ensures (λ _. Unit {0}) n recs (All-unit (elems recs))) λ x m. m.1
  cut_to-Ensures n (err e) h = tt
  cut_to-Ensures n panic h = h

  -- A request for `n` popular items returns at most `n`, and does not panic.
  pub get_popular_items-length :
      (n : ℕ) → Ensures (λ recs. length (elems recs) ≤ n) (get_popular_items db (pos n))
  unfolding get_popular_items
  get_popular_items-length n = cut_to-Ensures n _ (decoded-Ensures _)

  -- A list that is not nil.
  abbrev pub Listed : Slice (Experiment F) → Type 0
  Listed none = ⊥
  Listed (some es) = Unit

  after_values-Listed :
      (r : Result (List (Option Text)))
      → Ensures (λ _. Unit {0}) r
      → Ensures Listed (after_values db r)
  unfolding after_values
  after_values-Listed (ok vs) h = tt
  after_values-Listed (err e) h = tt
  after_values-Listed panic h = h

  after_members-Listed :
      (r : Result (List Text)) → Ensures (λ _. Unit {0}) r → Ensures Listed (after_members db r)
  unfolding after_members
  after_members-Listed (ok []) h = tt
  after_members-Listed (ok (id ∷ ids)) h =
      after_values-Listed _ (runs.get_all_runs (map experiment_config (id ∷ ids)))
  after_members-Listed (err e) h = tt
  after_members-Listed panic h = h

  -- The list of active experiments is never nil without an error, so that the experiment router can
  -- keep it.
  pub list_active_experiments-Listed : Ensures Listed (list_active_experiments db)
  unfolding list_active_experiments
  list_active_experiments-Listed =
      after_members-Listed (db.members experiment_active_list)
        (runs.members_run experiment_active_list)
