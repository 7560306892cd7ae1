-- ===== src/Sort/Tests.antt =====
-- The sorts on four scores, two of which are the same.
use recsys_pipeline.Common.{◌≡◌, refl, some, List, [], ◌∷◌}
use recsys_pipeline.Common.Int.{pos}
use recsys_pipeline.Common.Text.{Text, text}
use recsys_pipeline.Common.Float.{Tenths, tenths}
use recsys_pipeline.Sort.{slice_stable, sort_in_place, descending}

abbrev Entry : Type 0
Entry = Text × Tenths

abbrev score : Entry → Tenths
score e = e.1

abbrev four : List Entry
four =
    (text "a", some (pos 3))
    ∷ (text "b", some (pos 9))
    ∷ (text "c", some (pos 3))
    ∷ (text "d", some (pos 5))
    ∷ []

abbrev four_sorted : List Entry
four_sorted =
    (text "b", some (pos 9))
    ∷ (text "d", some (pos 5))
    ∷ (text "a", some (pos 3))
    ∷ (text "c", some (pos 3))
    ∷ []

both_sort :
    (slice_stable (descending score) four ≡ four_sorted)
    × (sort_in_place (descending score) four ≡ four_sorted)
unfolding slice_stable sort_in_place
both_sort = (refl, refl)
