-- ===== src/Rerank/Tests.antt =====
-- A session of four events: a click on the second item, a view of the third, an entry that is no
-- event, and a view of the second.
use mathlib.Core.List.{Perm}
use recsys_pipeline.Common.{
  ℕ, ◌≡◌, refl, some, none, Option, List, [], ◌∷◌, map, All, keep, ok, if◌then◌else◌,
}
use recsys_pipeline.Common.Int.{ℤ, pos, ◌+ℤ◌, ◌*ℤ◌}
use recsys_pipeline.Common.Text.{Text, text, same}
use recsys_pipeline.Common.Float.{Tenths, tenths, Tenths-IsOrdered}
use recsys_pipeline.Keys.{session_events}
use recsys_pipeline.Sort.{descending, Ordered, Scored, tied, slice_stable}
use recsys_pipeline.Tier.{Recommendation}
use recsys_pipeline.Rerank.{
  SessionEvent, SessionFeatures, Member, Sessions, default_weights, extract, rerank, session_rerank,
  final_score,
}
use recsys_pipeline.Rerank.Features.{Tells, extract-Tells}
use recsys_pipeline.Rerank.Scoring.{adjusted, rerank-Ordered, rerank-keep}

abbrev event : Text → Text → SessionEvent
event kind id = record { event_type = kind; item_id = id }

-- A decoder of members of two letters: the kind of the event, and the item.
abbrev decode : Text → Option SessionEvent
decode (k ∷ i ∷ []) =
    some (event (if same (k ∷ []) (text "c") then text "click" else text "view") (i ∷ []))
decode _ = none

abbrev member : Text → Member Tenths
member m = record { member = some m; score = some (pos 20) }

abbrev history : List (Member Tenths)
history = member (text "c2") ∷ member (text "v3") ∷ member (text "x") ∷ member (text "v2") ∷ []

abbrev whole : Tenths → ℤ
whole none = pos 0
whole (some t) = t

abbrev sessions : Sessions Tenths
sessions = record {
  rev_range = λ key a b. ok history;
  decode = decode;
  to_int64 = whole;
  now = pos 90;
}

abbrev item : Text → ℕ → Recommendation Tenths
item id tenth = record { item_id = id; score = some (pos tenth) }

abbrev cached : List (Recommendation Tenths)
cached = item (text "1") 5 ∷ item (text "2") 9 ∷ item (text "3") 6 ∷ item (text "4") 4 ∷ []

-- The clicked and viewed item loses 0.7 and ends last, the viewed one loses 0.2.
reranked :
    session_rerank sessions default_weights (text "s") (some cached)
    ≡ ok (some (item (text "1") 5 ∷ item (text "3") 4 ∷ item (text "4") 4 ∷ item (text "2") 2 ∷ []))
unfolding session_rerank extract default_weights rerank final_score slice_stable same ◌+ℤ◌ ◌*ℤ◌
    session_events
reranked = refl

extract-Tells_example :
    (fs : SessionFeatures) × (extract sessions (text "s") ≡ ok fs) × Tells sessions history fs
extract-Tells_example = extract-Tells sessions (text "s") history refl

abbrev features : SessionFeatures
features = record {
  clicked_items = text "2" ∷ [];
  viewed_items = text "2" ∷ text "3" ∷ [];
  session_length = 4;
  last_event_age = pos 0;
}

cached-numbers : All (Scored (λ x. x.score)) (map (adjusted default_weights features) cached)
unfolding default_weights final_score same ◌+ℤ◌ ◌*ℤ◌
cached-numbers = (refl, (refl, (refl, (refl, tt))))

rerank-Ordered_example :
    Perm (rerank default_weights cached features) (map (adjusted default_weights features) cached)
    × Ordered (descending (λ x. x.score)) (rerank default_weights cached features)
rerank-Ordered_example =
    rerank-Ordered default_weights features Tenths-IsOrdered cached cached-numbers

rerank-keep_example :
    keep
      (tied (descending (λ x. x.score)) (item (text "x") 4))
      (rerank default_weights cached features)
    ≡ keep
        (tied (descending (λ x. x.score)) (item (text "x") 4))
        (map (adjusted default_weights features) cached)
rerank-keep_example =
    rerank-keep default_weights features Tenths-IsOrdered (item (text "x") 4) cached refl
      cached-numbers
