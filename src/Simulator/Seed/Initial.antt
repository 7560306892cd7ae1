-- ===== src/Simulator/Seed/Initial.antt =====
-- services/traffic-simulator/cmd/seed/main.go: the program that fills the database.
use recsys_pipeline.Common.{
  ℕ, suc, ◌≡◌, ◌≢◌, ◌<◌, sym, ◌∙◌, List, [], ◌∷◌, map, length, All, Distinct, Action, ◌>>=◌, within,
  within-Gives, Gives, >>=-Gives, Gives-mono, arith, if◌then◌else◌,
}
use recsys_pipeline.Common.Int.{pos}
use recsys_pipeline.Common.Float.{Float}
use recsys_pipeline.Common.Text.{Text, text, same}
use recsys_pipeline.Simulator.{
  Item, User, Random, IsRandom, generate_items, generate_users, user_name,
}
use recsys_pipeline.Simulator.Catalogue.{
  AreEntries, AreUsers, user_name_injective, generate_items-Gives, generate_users-Gives,
}
use recsys_pipeline.Simulator.Seed.{Client, Recommendation, seed_dragonfly}
use recsys_pipeline.Simulator.Seed.Writes.{View, IsWorking}
use recsys_pipeline.Simulator.Seed.Seeded.{IsSeeded}
use recsys_pipeline.Simulator.Seed.Seeding.{seed_dragonfly-IsSeeded}

-- The address of the database, from the value of DRAGONFLY_ADDR.
unfoldable pub database_addr : Text → Text
database_addr v = if same v [] then text "localhost:6379" else v

-- The body of `main` behind the connection; `log.Fatalf` ends the program with the error.
unfoldable pub seed_main :
    {σ F : Type 0} ⦃f : Float F⦄ → Random σ → Client σ F → Action σ (Unit {0})
seed_main r client = do
  users ← generate_users r (pos 100000)
  items ← generate_items r (pos 1000000) (pos 50)
  within (text "seed failed: ") (seed_dragonfly client users items)

later_users :
    (i j : ℕ) (u : User) (us : List User)
    → i < j
    → u.id ≡ user_name i
    → AreUsers j us
    → All (λ y. u.id ≢ y) (map (λ u. u.id) us)
later_users i j u [] h e es = tt
later_users i j u (o ∷ us) h e es = (
  λ same_id. absurd (omega (arith, user_name_injective i j (sym e ∙ same_id ∙ es.0.0))),
  later_users i (suc j) u us (omega arith) e es.1,
)

AreUsers-Distinct : (i : ℕ) (us : List User) → AreUsers i us → Distinct (map (λ u. u.id) us)
AreUsers-Distinct i [] e = tt
AreUsers-Distinct i (u ∷ us) e =
    (later_users i (suc i) u us (omega arith) e.0.0 e.1, AreUsers-Distinct (suc i) us e.1)

user_name-ne : (i : ℕ) → user_name i ≢ text "popular"
unfolding user_name
user_name-ne i e = ground arith

AreUsers-unpopular : (i : ℕ) (us : List User) → AreUsers i us → All (λ u. u.id ≢ text "popular") us
AreUsers-unpopular i [] e = tt
AreUsers-unpopular i (u ∷ us) e =
    ((λ p. user_name-ne i (sym e.0.0 ∙ p)), AreUsers-unpopular (suc i) us e.1)

AreUsers-prefs : (i : ℕ) (us : List User) → AreUsers i us → All (λ u. Distinct u.category_prefs) us
AreUsers-prefs i [] e = tt
AreUsers-prefs i (u ∷ us) e = (e.0.3, AreUsers-prefs (suc i) us e.1)

-- The users, the items and what the database holds of them.
pub record IsLoaded {F : Type 0} ⦃f : Float F⦄ (encoding : List (Recommendation F) → Text)
    (v : View) : Type 0 where
  pub users : List User
  pub items : List Item
  pub length-users : length users ≡ 100000
  pub length-items : length items ≡ 1000000
  pub users-AreUsers : AreUsers 0 users
  pub items-AreEntries : AreEntries 50 0 items
  pub seeded : IsSeeded encoding users items v

-- Whatever the database held and whatever is drawn, the program ends without an error, and leaves a
-- database seeded with 100,000 users and 1,000,000 items in 50 categories. The database takes every
-- write, and the random numbers are in their ranges.
pub seed_main-IsLoaded :
    {σ F : Type 0} ⦃f : Float F⦄ (r : Random σ) (client : Client σ F) (view : σ → View)
    (random : IsRandom r) (w : IsWorking client view) (s : σ)
    → Gives (λ _ t. IsLoaded w.encoding (view t)) (seed_main r client s)
unfolding seed_main
seed_main-IsLoaded {σ} {F} r client view random w s =
    let Q = λ (_ : Unit {0}) (t : σ). IsLoaded w.encoding (view t) in
    >>=-Gives (λ us _. (length us ≡ 100000) × AreUsers 0 us) Q (generate_users r (pos 100000)) _ s
      (generate_users-Gives r random 100000 s)
      λ users t hu.
        >>=-Gives
          (λ xs _. (length xs ≡ 1000000) × AreEntries 50 0 xs × Distinct (map (λ x. x.id) xs)) Q
          (generate_items r (pos 1000000) (pos 50)) _ t (generate_items-Gives r random 1000000 49 t)
          λ items u hi.
            within-Gives Q (text "seed failed: ") (seed_dragonfly client users items) u (
              Gives-mono (λ _ t. IsSeeded w.encoding users items (view t)) Q _
                (seed_dragonfly-IsSeeded client view w users items u hi.2
                  (AreUsers-Distinct 0 users hu.1) (AreUsers-unpopular 0 users hu.1)
                  (AreUsers-prefs 0 users hu.1))
                λ _ t h. record {
                  users = users;
                  items = items;
                  length-users = hu.0;
                  length-items = hi.0;
                  users-AreUsers = hu.1;
                  items-AreEntries = hi.1;
                  seeded = h;
                })
