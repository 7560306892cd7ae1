-- ===== src/Keys.antt =====
-- shared/go/keys/keys.go: the DragonflyDB keys that the services share.
pub mod Apart
mod Tests
use recsys_pipeline.Common.{◌++◌}
use recsys_pipeline.Common.Text.{Text, text}

-- `fmt.Sprintf` with one `%s` between two literals
abbrev pub between : Text → Text → Text → Text
between before after name = before ++ (name ++ after)

unfoldable pub rec_top_k : Text → Text
rec_top_k user = between (text "rec:") (text ":top_k") user

unfoldable pub rec_ttl : Text → Text
rec_ttl user = between (text "rec:") (text ":ttl") user

pub feat_user_clicks_1h : Text → Text
feat_user_clicks_1h user = between (text "feat:user:") (text ":clicks_1h") user

pub feat_user_views_1d : Text → Text
feat_user_views_1d user = between (text "feat:user:") (text ":views_1d") user

pub feat_user_recent_items : Text → Text
feat_user_recent_items user = between (text "feat:user:") (text ":recent_items") user

pub feat_item_ctr_7d : Text → Text
feat_item_ctr_7d item = between (text "feat:item:") (text ":ctr_7d") item

pub feat_item_popularity : Text → Text
feat_item_popularity item = between (text "feat:item:") (text ":popularity") item

unfoldable pub stock_bitmap : Text
stock_bitmap = text "stock:bitmap"

unfoldable pub stock_id_map : Text → Text
stock_id_map item = text "stock:id_map:" ++ item

unfoldable pub session_events : Text → Text
session_events session = between (text "session:") (text ":events") session

unfoldable pub experiment_config : Text → Text
experiment_config id = text "experiment:" ++ id

unfoldable pub experiment_active_list : Text
experiment_active_list = text "experiment:active"
