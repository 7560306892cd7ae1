-- ===== src/Sort/Scores.antt =====
-- Entries in the order of their scores, the highest first. Entries whose score is not NaN are
-- strictly and weakly ordered so.
use recsys_pipeline.Common.{◌≡◌, Bool, false, arith}
use recsys_pipeline.Common.Float.{Float, IsOrdered}
use recsys_pipeline.Sort.Stable.{IsOrder}

-- `a.score > b.score`
abbrev pub descending : {A F : Type 0} ⦃f : Float F⦄ → (A → F) → A → A → Bool
descending ⦃f⦄ score a b = f.lt (score b) (score a)

module _ {A F : Type 0} ⦃f : Float F⦄ (score : A → F) where
  abbrev pub Scored : A → Type 0
  Scored x = f.is_nan (score x) ≡ false

  pub descending-IsOrder : IsOrdered F → IsOrder Scored (descending score)
  descending-IsOrder o = record {
    asym = λ x y fx fy h.
        ground (arith, o.lt_trans (score y) (score x) (score y), o.lt_irrefl (score y));
    through = λ x y z fx fy fz h k. ground (arith, o.lt_split (score z) (score y) (score x) fy);
  }
