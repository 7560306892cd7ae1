-- ===== src/Rerank/Features.antt =====
-- What the extractor finds in a session.
use recsys_pipeline.Common.{
  ◌≡◌, refl, ◌∙◌, Bool, true, false, ◌&&◌, ◌||◌, Option, none, some, List, [], ◌∷◌, length, ok,
  arith,
}
use recsys_pipeline.Common.Text.{Text, text, same, same_iff}
use recsys_pipeline.Keys.{session_events}
use recsys_pipeline.Rerank.{
  contains, SessionFeatures, SessionEvent, Member, Sessions, note_decoded, event_of, collect,
  no_features, features_of, after_range, extract,
}

abbrev pub is_event : Text → Text → Option SessionEvent → Bool
is_event kind id none = false
is_event kind id (some e) = same e.event_type kind && same e.item_id id

-- Some entry holds an event of this kind on this item.
abbrev pub seen : {F : Type 0} → Sessions F → Text → Text → List (Member F) → Bool
seen db kind id [] = false
seen db kind id (z ∷ zs) = is_event kind id (event_of db.decode z.member) || seen db kind id zs

||_comm : (a b c : Bool) → (a || b) || c ≡ b || (a || c)
||_comm a b c = ground arith

click_or_view : (s : Text) → same s (text "click") ≡ true → same s (text "view") ≡ false
click_or_view s h = ground (arith, same_iff s (text "click"), same_iff s (text "view"))

note_decoded-clicked :
    (e : Option SessionEvent) (fs : SessionFeatures) (id : Text)
    → contains (note_decoded e fs).clicked_items id
      ≡ is_event (text "click") id e || contains fs.clicked_items id
unfolding note_decoded contains
note_decoded-clicked none fs id = refl
note_decoded-clicked (some e) fs id = ground arith

note_decoded-viewed :
    (e : Option SessionEvent) (fs : SessionFeatures) (id : Text)
    → contains (note_decoded e fs).viewed_items id
      ≡ is_event (text "view") id e || contains fs.viewed_items id
unfolding note_decoded contains
note_decoded-viewed none fs id = refl
note_decoded-viewed (some e) fs id = ground (arith, click_or_view e.event_type)

note_decoded-length :
    (e : Option SessionEvent) (fs : SessionFeatures)
    → (note_decoded e fs).session_length ≡ fs.session_length
unfolding note_decoded
note_decoded-length none fs = refl
note_decoded-length (some e) fs = ground arith

module _ {F : Type 0} (db : Sessions F) where
  collect-clicked :
      (zs : List (Member F)) (fs : SessionFeatures) (id : Text)
      → contains (collect db zs fs).clicked_items id
        ≡ seen db (text "click") id zs || contains fs.clicked_items id
  unfolding collect
  collect-clicked [] fs id = refl
  collect-clicked (z ∷ zs) fs id =
      let e = event_of db.decode z.member in
      ground (arith, collect-clicked zs (note_decoded e fs) id, note_decoded-clicked e fs id)

  collect-viewed :
      (zs : List (Member F)) (fs : SessionFeatures) (id : Text)
      → contains (collect db zs fs).viewed_items id
        ≡ seen db (text "view") id zs || contains fs.viewed_items id
  unfolding collect
  collect-viewed [] fs id = refl
  collect-viewed (z ∷ zs) fs id =
      let e = event_of db.decode z.member in
      ground (arith, collect-viewed zs (note_decoded e fs) id, note_decoded-viewed e fs id)

  collect-length :
      (zs : List (Member F)) (fs : SessionFeatures)
      → (collect db zs fs).session_length ≡ fs.session_length
  unfolding collect
  collect-length [] fs = refl
  collect-length (z ∷ zs) fs =
      collect-length zs (note_decoded (event_of db.decode z.member) fs)
      ∙ note_decoded-length (event_of db.decode z.member) fs

  -- The features say of every item whether the entries hold a click or a view of it, whatever the
  -- other entries are: entries that are no text or no event are passed over.
  pub record Tells (results : List (Member F)) (fs : SessionFeatures) : Type 0 where
    pub clicked : (id : Text) → contains fs.clicked_items id ≡ seen db (text "click") id results
    pub viewed : (id : Text) → contains fs.viewed_items id ≡ seen db (text "view") id results
    pub counted : fs.session_length ≡ length results

  features_of-Tells : (results : List (Member F)) → Tells results (features_of db results)
  unfolding features_of no_features contains
  features_of-Tells [] = record { clicked = λ id. refl; viewed = λ id. refl; counted = refl }
  features_of-Tells (z ∷ zs) = record {
    clicked = λ id. collect-clicked (z ∷ zs) _ id ∙ ||-false _;
    viewed = λ id. collect-viewed (z ∷ zs) _ id ∙ ||-false _;
    counted = collect-length (z ∷ zs) _;
  }
    where
      ||-false : (b : Bool) → (b || false) ≡ b
      ||-false b = ground arith

  -- If DragonflyDB answers with some entries, the extractor succeeds, and its features tell of
  -- every item whether the entries hold a click or a view of it, and how many entries there are.
  pub extract-Tells :
      (session : Text) (results : List (Member F))
      → db.rev_range (session_events session) 0 49 ≡ ok results
      → (fs : SessionFeatures) × (extract db session ≡ ok fs) × Tells results fs
  unfolding extract after_range
  extract-Tells session results e = (features_of db results, rw e, features_of-Tells results)
