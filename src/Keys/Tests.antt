-- ===== src/Keys/Tests.antt =====
-- Keys of concrete names.
use recsys_pipeline.Common.{◌≡◌, refl}
use recsys_pipeline.Common.Text.{text}
use recsys_pipeline.Keys.{rec_top_k, stock_id_map, experiment_config, experiment_active_list}

spelled :
    (rec_top_k (text "u_1") ≡ text "rec:u_1:top_k")
    × (stock_id_map (text "i_7") ≡ text "stock:id_map:i_7")
    × (experiment_config (text "active") ≡ experiment_active_list)
unfolding rec_top_k stock_id_map experiment_config experiment_active_list
spelled = (refl, refl, refl)
