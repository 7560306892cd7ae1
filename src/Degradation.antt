-- ===== src/Degradation.antt =====
-- services/recommendation-api/internal/degradation/level.go: the degradation level and the tiers
-- that it leaves on. The manager keeps one atomic level; a load ratio is a float.
pub mod Thresholds
mod Tests
use recsys_pipeline.Common.{ℕ, Bool, true, false, ltb, if◌then◌else◌}
use recsys_pipeline.Common.Int.{pos}
use recsys_pipeline.Common.Text.{Text, text, same}
use recsys_pipeline.Common.Float.{Float}

pub data Level : Type 0 where
  normal warning critical emergency : Level

-- The `int32` of a level, by which levels are compared.
abbrev pub number : Level → ℕ
number normal = 0
number warning = 1
number critical = 2
number emergency = 3

pub record Manager : Type 0 where
  pub level : Level

unfoldable pub new_manager : Manager
new_manager = record { level = normal }

unfoldable pub set_level : Level → Manager → Manager
set_level l m = record { level = l }

unfoldable pub current_level : Manager → Level
current_level m = m.level

unfoldable pub report_load : {F : Type 0} ⦃f : Float F⦄ → F → Manager → Manager
report_load ⦃f⦄ ratio m =
    if f.le (f.decimal (pos 3) 0) ratio
    then record { level = emergency }
    else if f.le (f.decimal (pos 2) 0) ratio
    then record { level = critical }
    else if f.le (f.decimal (pos 15) 1) ratio
    then record { level = warning }
    else record { level = normal }

unfoldable pub is_tier_allowed : Text → Manager → Bool
unfolding current_level
is_tier_allowed name m =
    if same name (text "tier3")
    then ltb (number (current_level m)) (number warning)
    else if same name (text "tier2")
    then ltb (number (current_level m)) (number critical)
    else if same name (text "tier1")
    then ltb (number (current_level m)) (number emergency)
    else true
