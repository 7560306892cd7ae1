-- ===== src/Keys/Apart.antt =====
-- Which keys can be the same.
use mathlib.Core.List.{append_cancel_left, append_cancel_right}
use recsys_pipeline.Common.{
  ℕ, ◌≡◌, ◌≢◌, ◌↔◌, refl, sym, ap, ◌∙◌, [], ◌∷◌, ◌++◌, append_assoc, arith,
}
use recsys_pipeline.Common.Text.{Text, text}
use recsys_pipeline.Keys.{
  between, rec_top_k, rec_ttl, feat_user_clicks_1h, feat_user_views_1d, feat_user_recent_items,
  feat_item_ctr_7d, feat_item_popularity, stock_bitmap, stock_id_map, session_events,
  experiment_config, experiment_active_list,
}

between_injective :
    (before after s t : Text) → between before after s ≡ between before after t → s ≡ t
between_injective before after s t e =
    append_cancel_right s t after (append_cancel_left before (s ++ after) (t ++ after) e)

-- The last byte of a text, or `d`.
abbrev last_or : ℕ → Text → ℕ
last_or d [] = d
last_or d (c ∷ s) = last_or c s

last_or-append : (d c : ℕ) (s t : Text) → last_or d (s ++ c ∷ t) ≡ last_or c t
last_or-append d c [] t = refl
last_or-append d c (x ∷ s) t = last_or-append x c s t

last_or-between :
    (d c : ℕ) (before s after : Text) → last_or d (between before (c ∷ after) s) ≡ last_or c after
last_or-between d c before s after =
    ap (last_or d) (sym (append_assoc before s (c ∷ after)))
    ∙ last_or-append d c (before ++ s) after

-- Two keys with other last bytes are not the same key.
between-ne :
    (before s t after after' : Text) (c c' : ℕ)
    → last_or c after ≢ last_or c' after'
    → between before (c ∷ after) s ≢ between before (c' ∷ after') t
between-ne before s t after after' c c' other e = other (
    sym (last_or-between 0 c before s after)
    ∙ ap (last_or 0) e
    ∙ last_or-between 0 c' before t after')

-- Every key function is injective: no two users, items, sessions or experiments share a key.
pub keys_injective :
    (s t : Text)
    → ((rec_top_k s ≡ rec_top_k t) ↔ (s ≡ t))
      × ((rec_ttl s ≡ rec_ttl t) ↔ (s ≡ t))
      × ((feat_user_clicks_1h s ≡ feat_user_clicks_1h t) ↔ (s ≡ t))
      × ((feat_user_views_1d s ≡ feat_user_views_1d t) ↔ (s ≡ t))
      × ((feat_user_recent_items s ≡ feat_user_recent_items t) ↔ (s ≡ t))
      × ((feat_item_ctr_7d s ≡ feat_item_ctr_7d t) ↔ (s ≡ t))
      × ((feat_item_popularity s ≡ feat_item_popularity t) ↔ (s ≡ t))
      × ((stock_id_map s ≡ stock_id_map t) ↔ (s ≡ t))
      × ((session_events s ≡ session_events t) ↔ (s ≡ t))
      × ((experiment_config s ≡ experiment_config t) ↔ (s ≡ t))
unfolding rec_top_k rec_ttl feat_user_clicks_1h feat_user_views_1d feat_user_recent_items
    feat_item_ctr_7d feat_item_popularity stock_id_map session_events experiment_config
keys_injective s t = (
  (between_injective (text "rec:") (text ":top_k") s t, ap rec_top_k),
  (between_injective (text "rec:") (text ":ttl") s t, ap rec_ttl),
  (between_injective (text "feat:user:") (text ":clicks_1h") s t, ap feat_user_clicks_1h),
  (between_injective (text "feat:user:") (text ":views_1d") s t, ap feat_user_views_1d),
  (between_injective (text "feat:user:") (text ":recent_items") s t, ap feat_user_recent_items),
  (between_injective (text "feat:item:") (text ":ctr_7d") s t, ap feat_item_ctr_7d),
  (between_injective (text "feat:item:") (text ":popularity") s t, ap feat_item_popularity),
  (append_cancel_left (text "stock:id_map:") s t, ap stock_id_map),
  (between_injective (text "session:") (text ":events") s t, ap session_events),
  (append_cancel_left (text "experiment:") s t, ap experiment_config),
)

-- Key functions with a common prefix never give the same key, whatever names they are given: two
-- records of one user or item, and the stock bitmap and an entry of its index, are kept apart.
pub keys_apart :
    (s t : Text)
    → (rec_top_k s ≢ rec_ttl t)
      × (feat_user_clicks_1h s ≢ feat_user_views_1d t)
      × (feat_user_clicks_1h s ≢ feat_user_recent_items t)
      × (feat_user_views_1d s ≢ feat_user_recent_items t)
      × (feat_item_ctr_7d s ≢ feat_item_popularity t)
      × (stock_id_map s ≢ stock_bitmap)
      × (session_events s ≢ stock_id_map t)
unfolding rec_top_k rec_ttl feat_user_clicks_1h feat_user_views_1d feat_user_recent_items
    feat_item_ctr_7d feat_item_popularity stock_id_map stock_bitmap session_events
keys_apart s t = (
  between-ne (text "rec:") s t (text "top_k") (text "ttl") b':' b':' (omega arith),
  between-ne (text "feat:user:") s t (text "clicks_1h") (text "views_1d") b':' b':' (omega arith),
  between-ne (text "feat:user:") s t (text "clicks_1h") (text "recent_items") b':' b':'
      (omega arith),
  between-ne (text "feat:user:") s t (text "views_1d") (text "recent_items") b':' b':'
      (omega arith),
  between-ne (text "feat:item:") s t (text "ctr_7d") (text "popularity") b':' b':' (omega arith),
  λ e. ground arith,
  λ e. ground arith,
)

-- The configuration of an experiment is kept under the key of the set of active experiments exactly
-- if the experiment is called "active".
pub experiment_config_meets :
    (id : Text) → (experiment_config id ≡ experiment_active_list) ↔ (id ≡ text "active")
unfolding experiment_config experiment_active_list
experiment_config_meets id = (
  append_cancel_left (text "experiment:") id (text "active"),
  λ e. ap (λ s. text "experiment:" ++ s) e,
)
