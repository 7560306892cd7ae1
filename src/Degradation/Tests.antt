-- ===== src/Degradation/Tests.antt =====
-- The degradation manager at concrete loads, in whole tenths.
use recsys_pipeline.Common.{◌≡◌, refl, some}
use recsys_pipeline.Common.Int.{pos, ◌*ℤ◌}
use recsys_pipeline.Common.Float.{Tenths, tenths}
use recsys_pipeline.Degradation.{Manager, critical, emergency, new_manager, report_load}

overloaded : (report_load {F = Tenths} (some (pos 21)) new_manager).level ≡ critical
unfolding report_load new_manager ◌*ℤ◌
overloaded = refl

abbrev at_critical : Manager
at_critical = record { level = critical }

abbrev at_emergency : Manager
at_emergency = record { level = emergency }
