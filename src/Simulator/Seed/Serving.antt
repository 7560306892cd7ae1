-- ===== src/Simulator/Seed/Serving.antt =====
-- The commands for the users, and what a database holds behind them.
use recsys_pipeline.Common.{◌≡◌, ◌≢◌, sym, ◌∙◌, List, [], ◌∷◌, map, All, Distinct, some}
use recsys_pipeline.Common.Text.{Text}
use recsys_pipeline.Keys.{rec_top_k}
use recsys_pipeline.Keys.Apart.{keys_injective}
use recsys_pipeline.Simulator.{Item, User}
use recsys_pipeline.Simulator.Seed.{Command, Recommendation}
use recsys_pipeline.Simulator.Seed.Writes.{View, update, written, written_first}
use recsys_pipeline.Simulator.Seed.Picks.{ArePicks}

module _ {F : Type 0} (encoding : List (Recommendation F) → Text) (items : List Item) where
  -- The text is that of recommendations for the user.
  abbrev pub IsServing : User → Text → Type 0
  IsServing u json =
      (recs : List (Recommendation F)) × (json ≡ encoding recs)
      × ArePicks u.category_prefs items recs

  abbrev pub IsServed : View → User → Type 0
  IsServed v u = (json : Text) × (v (rec_top_k u.id) ≡ some json) × IsServing u json

  abbrev pub AreCommands : List User → List Command → Type 0
  AreCommands [] [] = Unit
  AreCommands [] (c ∷ cs) = ⊥
  AreCommands (u ∷ us) [] = ⊥
  AreCommands (u ∷ us) (c ∷ cs) =
      ((c.key ≡ rec_top_k u.id) × IsServing u c.value) × AreCommands us cs

  pub AreCommands-avoid :
      (k : Text) (us : List User) (cs : List Command)
      → All (λ u. rec_top_k u.id ≢ k) us
      → AreCommands us cs
      → All (λ c. c.key ≢ k) cs
  AreCommands-avoid k [] [] h a = tt
  AreCommands-avoid k [] (c ∷ cs) h a = absurd a
  AreCommands-avoid k (u ∷ us) [] h a = absurd a
  AreCommands-avoid k (u ∷ us) (c ∷ cs) h a =
      ((λ e. h.0 (sym a.0.0 ∙ e)), AreCommands-avoid k us cs h.1 a.1)

  other_users :
      (u : User) (us : List User)
      → All (λ i. u.id ≢ i) (map (λ u. u.id) us)
      → All (λ o. rec_top_k o.id ≢ rec_top_k u.id) us
  other_users u [] h = tt
  other_users u (o ∷ us) h =
      (λ e. h.0 (sym ((keys_injective o.id u.id).0.0 e)), other_users u us h.1)

  pub AreCommands-IsServed :
      (us : List User) (cs : List Command) (v : View)
      → Distinct (map (λ u. u.id) us)
      → AreCommands us cs
      → All (IsServed (written cs v)) us
  AreCommands-IsServed [] cs v d a = tt
  AreCommands-IsServed (u ∷ us) [] v d a = absurd a
  AreCommands-IsServed (u ∷ us) (c ∷ cs) v d a = (
    (
      c.value,
      written_first c cs v (rec_top_k u.id) a.0.0
          (AreCommands-avoid (rec_top_k u.id) us cs (other_users u us d.0) a.1),
      a.0.1,
    ),
    AreCommands-IsServed us cs (update v c) d.1 a.1,
  )
