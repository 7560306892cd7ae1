-- ===== src/Degradation/Thresholds.antt =====
-- How the level follows the load, and how the tiers follow the level.
use recsys_pipeline.Common.{◌≤◌, ◌≡◌, true, arith}
use recsys_pipeline.Common.Int.{pos}
use recsys_pipeline.Common.Text.{Text}
use recsys_pipeline.Common.Float.{Float, IsOrdered, le_trans}
use recsys_pipeline.Degradation.{number, Manager, report_load, is_tier_allowed}

-- A higher level never allows a tier that a lower one forbids.
pub is_tier_allowed_mono :
    (name : Text) (m n : Manager)
    → number m.level ≤ number n.level
    → is_tier_allowed name n ≡ true
    → is_tier_allowed name m ≡ true
unfolding is_tier_allowed
is_tier_allowed_mono name m n le h = ground arith

module _ {F : Type 0} ⦃f : Float F⦄ (o : IsOrdered F) where
  -- A greater load never lowers the level that it sets.
  pub report_load_mono :
      (x y : F) (m n : Manager)
      → f.le x y ≡ true
      → number (report_load x m).level ≤ number (report_load y n).level
  unfolding report_load
  report_load_mono x y m n h = ground (
    arith,
    le_trans o (f.decimal (pos 3) 0) x y,
    le_trans o (f.decimal (pos 2) 0) x y,
    le_trans o (f.decimal (pos 15) 1) x y,
  )
