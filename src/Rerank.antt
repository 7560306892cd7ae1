-- ===== src/Rerank.antt =====
-- services/recommendation-api/internal/rerank: the features of a session, the weighted scorer, and
-- the re-ranker of tier 2 that joins them. DragonflyDB and the JSON decoder are parameters.
pub mod Features
pub mod Scoring
pub mod Contract
mod Tests
use recsys_pipeline.Common.{
  ℕ, ◌-◌, ◌^◌, Bool, true, false, ◌||◌, Option, none, some, List, [], ◌∷◌, map, length, Result, ok,
  err, panic, Action, of_result, Slice, elems, if◌then◌else◌,
}
use recsys_pipeline.Common.Int.{ℤ, pos, negsuc, ◌+ℤ◌, ◌*ℤ◌, ltb_ℤ}
use recsys_pipeline.Common.Text.{Text, text, same}
use recsys_pipeline.Common.Float.{Float}
use recsys_pipeline.Keys.{session_events}
use recsys_pipeline.Sort.{slice_stable, descending}
use recsys_pipeline.Tier.{Recommendation, Recs, Reranker}

-- The keys that a `map[string]bool` holds with the value true, the last one written first.
abbrev pub Ids : Type 0
Ids = List Text

pub contains : Ids → Text → Bool
contains [] id = false
contains (x ∷ xs) id = same x id || contains xs id

pub record SessionFeatures : Type 0 where
  pub clicked_items : Ids
  pub viewed_items : Ids
  pub session_length : ℕ
  pub last_event_age : ℤ  -- nanoseconds

pub record SessionEvent : Type 0 where
  pub event_type : Text
  pub item_id : Text

-- An entry of a sorted set: its member, `none` if that is no string, and its score.
pub record Member (F : Type 0) : Type 0 where
  pub member : Option Text
  pub score : F

-- What the extractor asks of its environment: ZREVRANGE with scores, `json.Unmarshal` into a
-- `sessionEvent` (`none` is an error), the conversion of a score to `int64`, and the clock.
pub record Sessions (F : Type 0) : Type 0 where
  pub rev_range : Text → ℕ → ℕ → Result (List (Member F))
  pub decode : Text → Option SessionEvent
  pub to_int64 : F → ℤ
  pub now : ℤ

-- The loop's switch on the event type.
note_event : SessionEvent → SessionFeatures → SessionFeatures
note_event e fs =
    if same e.event_type (text "click")
    then record fs { clicked_items = e.item_id ∷ fs.clicked_items }
    else if same e.event_type (text "view")
    then record fs { viewed_items = e.item_id ∷ fs.viewed_items }
    else fs

note_decoded : Option SessionEvent → SessionFeatures → SessionFeatures
unfolding note_event
note_decoded none fs = fs
note_decoded (some e) fs = note_event e fs

-- The event of an entry, if it has one.
abbrev pub event_of : (Text → Option SessionEvent) → Option Text → Option SessionEvent
event_of decode none = none
event_of decode (some member) = decode member

collect : {F : Type 0} → Sessions F → List (Member F) → SessionFeatures → SessionFeatures
unfolding note_decoded
collect db [] fs = fs
collect db (z ∷ zs) fs = collect db zs (note_decoded (event_of db.decode z.member) fs)

no_features : SessionFeatures
no_features = record {
  clicked_items = [];
  viewed_items = [];
  session_length = 0;
  last_event_age = pos 0;
}

-- A duration has 64 bits, and `time.Since` stops at the least and the greatest.
clip : ℤ → ℤ
clip d =
    if ltb_ℤ (pos (2 ^ 63 - 1)) d
    then pos (2 ^ 63 - 1)
    else if ltb_ℤ d (negsuc (2 ^ 63 - 1))
    then negsuc (2 ^ 63 - 1)
    else d

-- now - seconds * 10 ^ 9
age : ℤ → ℤ → ℤ
unfolding clip
age now seconds = clip (now +ℤ seconds *ℤ negsuc 999999999)

features_of : {F : Type 0} → Sessions F → List (Member F) → SessionFeatures
unfolding collect no_features age
features_of db [] = no_features
features_of db (z ∷ zs) = collect db (z ∷ zs) (record no_features {
  session_length = length (z ∷ zs);
  last_event_age = age db.now (db.to_int64 z.score);
})

after_range : {F : Type 0} → Sessions F → Result (List (Member F)) → Result SessionFeatures
unfolding features_of
after_range db (ok results) = ok (features_of db results)
after_range db (err e) = err e
after_range db panic = panic

unfoldable pub extract : {F : Type 0} → Sessions F → Text → Result SessionFeatures
unfolding after_range
extract db session = after_range db (db.rev_range (session_events session) 0 49)

pub record Weights (F : Type 0) : Type 0 where
  pub base_score : F
  pub clicked_penalty : F
  pub viewed_penalty : F

-- The local type `scored`
pub record Entry (F : Type 0) : Type 0 where
  pub rec : Recommendation F
  pub final : F

module _ {F : Type 0} ⦃f : Float F⦄ where
  unfoldable pub default_weights : Weights F
  default_weights = record {
    base_score = f.decimal (pos 10) 1;
    clicked_penalty = f.decimal (negsuc 4) 1;
    viewed_penalty = f.decimal (negsuc 1) 1;
  }

  unfoldable pub final_score : Weights F → SessionFeatures → Recommendation F → F
  unfolding contains
  final_score w fs item =
      let base = f.mul item.score w.base_score in
      let clicked =
        if contains fs.clicked_items item.item_id then f.add base w.clicked_penalty else base in
      if contains fs.viewed_items item.item_id then f.add clicked w.viewed_penalty else clicked

  entries : Weights F → SessionFeatures → List (Recommendation F) → List (Entry F)
  unfolding final_score
  entries w fs items = map (λ x. record { rec = x; final = final_score w fs x }) items

  results : List (Entry F) → List (Recommendation F)
  results es = map (λ e. record { item_id = e.rec.item_id; score = e.final }) es

  -- `WeightedScorer.Rerank`. The result of `make` is not nil.
  unfoldable pub rerank :
      Weights F → List (Recommendation F) → SessionFeatures → List (Recommendation F)
  unfolding entries results
  rerank w items fs = results (slice_stable (descending (λ e. e.final)) (entries w fs items))

  after_extract : Weights F → Recs F → Result SessionFeatures → Result (Recs F)
  unfolding rerank
  after_extract w items (ok fs) = ok (some (rerank w (elems items) fs))
  after_extract w items (err e) = err e
  after_extract w items panic = panic

  -- `SessionReranker.Rerank`
  unfoldable pub session_rerank : Sessions F → Weights F → Text → Recs F → Result (Recs F)
  unfolding extract after_extract
  session_rerank db w session items = after_extract w items (extract db session)

  -- The re-ranker as the router sees it.
  unfoldable pub session_reranker : {σ : Type 0} → Sessions F → Weights F → Reranker σ F
  unfolding session_rerank
  session_reranker db w = record {
    rerank = λ user session items. of_result (session_rerank db w session items);
  }
