-- ===== src/Simulator/Seed/Loaded.antt =====
-- The recommendation API on the database that the seeding program leaves.
use mathlib.Core.List.{Perm}
use mathlib.Core.List.Perm
use recsys_pipeline.Common.{
  ℕ, zero, suc, ◌+◌, ◌<◌, ◌≡◌, refl, ap, subst, ◌∙◌, some, List, [], ◌∷◌, ◌++◌, map, length,
  get_elem?, Distinct, iota, ok, arith, Gives-elim,
}
use recsys_pipeline.Common.Int.{pos}
use recsys_pipeline.Common.Float.{Float}
use recsys_pipeline.Common.Text.{Text}
use recsys_pipeline.Common.Permuted.{Distinct-perm, Distinct-append_left, get_elem?-lt}
use recsys_pipeline.Keys.{stock_bitmap}
use recsys_pipeline.Redis.{Redis}
use recsys_pipeline.Stock.{is_out_of_stock, bit_result}
use recsys_pipeline.Dragonfly.{Database, get_recommendations}
use recsys_pipeline.Simulator.{Item, User, Random, IsRandom, item_name, user_name}
use recsys_pipeline.Simulator.Catalogue.{AreEntries, AreUsers, AreEntries-Distinct, IsUser}
use recsys_pipeline.Simulator.Seed.{Client, Recommendation}
use recsys_pipeline.Simulator.Seed.Writes.{View, IsWorking}
use recsys_pipeline.Simulator.Seed.Picks.{IsPartOf, picked, ids}
use recsys_pipeline.Simulator.Seed.Initial.{seed_main, IsLoaded, seed_main-IsLoaded}
use recsys_pipeline.Simulator.Seed.Served.{
  reply_of, as_served, IsReading, is_out_of_stock-IsSeeded, get_recommendations-IsSeeded,
}

AreEntries-get :
    (k j : ℕ) (xs : List Item) (i : ℕ) (x : Item)
    → AreEntries k j xs
    → get_elem? xs i ≡ some x
    → x.id ≡ item_name (j + i)
AreEntries-get k j [] i x h e = absurd (ground arith)
AreEntries-get k j (y ∷ ys) zero x h e =
    let is_x : y ≡ x = cc in
    subst (λ n. x.id ≡ item_name n) (omega arith) (subst (λ y. y.id ≡ item_name j) is_x h.0.named)
AreEntries-get k j (y ∷ ys) (suc i) x h e =
    subst (λ n. x.id ≡ item_name n) (omega arith) (AreEntries-get k (suc j) ys i x h.1 e)

AreUsers-get :
    (j : ℕ) (us : List User) (i : ℕ) (u : User)
    → AreUsers j us
    → get_elem? us i ≡ some u
    → IsUser (j + i) u
AreUsers-get j [] i u h e = absurd (ground arith)
AreUsers-get j (y ∷ ys) zero u h e =
    subst (λ n. IsUser n u) (omega arith) (subst (IsUser j) (cc) h.0)
AreUsers-get j (y ∷ ys) (suc i) u h e =
    subst (λ n. IsUser n u) (omega arith) (AreUsers-get (suc j) ys i u h.1 e)

-- The names of the first `n` items.
pub catalogue : ℕ → List Text
catalogue n = map item_name (iota 0 n)

AreEntries-names :
    (k i : ℕ) (xs : List Item) → AreEntries k i xs → ids xs ≡ map item_name (iota i (length xs))
AreEntries-names k i [] h = refl
AreEntries-names k i (x ∷ xs) h = λ j. h.0.named j ∷ AreEntries-names k (suc i) xs h.1 j

module _ {σ F : Type 0} ⦃f : Float F⦄ (r : Random σ) (client : Client σ F) (view : σ → View)
    (random : IsRandom r) (w : IsWorking client view) (s : σ) where
  -- What the program leaves.
  abbrev pub left : View
  left = view (seed_main r client s).1

  loaded : IsLoaded w.encoding (view (seed_main r client s).1)
  loaded =
      (Gives-elim (λ _ t. IsLoaded w.encoding (view t)) (seed_main r client s)
        (seed_main-IsLoaded r client view random w s)).2

  -- After the seeding program, the check of the item with the number i, of 1,000,000, reads the bit
  -- at the offset i of the stock bitmap. A GET gives what the program left under the key, the
  -- database takes every write, and the random numbers are in their ranges.
  pub is_out_of_stock-seed_main :
      (db : Redis) (i : ℕ)
      → ((k : Text) → db.get k ≡ reply_of (view (seed_main r client s).1 k))
      → i < 1000000
      → is_out_of_stock db (item_name i) ≡ bit_result (db.get_bit stock_bitmap (pos i))
  is_out_of_stock-seed_main db i gets h =
      let l = loaded in
      let at = get_elem?-lt l.items i (omega (arith, l.length-items)) in
      let name : at.0.id ≡ item_name i =
        subst (λ n. at.0.id ≡ item_name n) (omega arith)
          (AreEntries-get 50 0 l.items i at.0 l.items-AreEntries at.1) in
      subst (λ id. is_out_of_stock db id ≡ bit_result (db.get_bit stock_bitmap (pos i))) name
        (is_out_of_stock-IsSeeded w.encoding l.users l.items left db i at.0 l.seeded gets
          (omega (arith, l.length-items)) at.1)

  -- After the seeding program, the store finds 100 recommendations for the user with the number i,
  -- of 100,000: no item twice, and all of them of the catalogue of 1,000,000 items. The API decodes
  -- what was encoded, and a GET gives what the program left under the key.
  pub get_recommendations-seed_main :
      (db : Database F) (i : ℕ)
      → IsReading db (view (seed_main r client s).1) w.encoding
      → i < 100000
      → (recs : List (Recommendation F)) × (get_recommendations db (user_name i)
          ≡ ok (some (map as_served recs)))
        × (length recs ≡ 100)
        × Distinct (picked recs)
        × IsPartOf (picked recs) (catalogue 1000000)
  unfolding catalogue
  get_recommendations-seed_main db i reads h =
      let l = loaded in
      let at = get_elem?-lt l.users i (omega (arith, l.length-users)) in
      let user : IsUser i at.0 =
        subst (λ n. IsUser n at.0) (omega arith)
          (AreUsers-get 0 l.users i at.0 l.users-AreUsers at.1) in
      let found =
        get_recommendations-IsSeeded w.encoding l.users l.items left db l.seeded reads i at.0
          at.1 in
      let picks = found.2 in
      let part = picks.from_catalogue in
      let names : ids l.items ≡ map item_name (iota 0 1000000) =
        AreEntries-names 50 0 l.items l.items-AreEntries
        ∙ ap (λ n. map item_name (iota 0 n)) l.length-items in
      (
        found.0,
        subst (λ id. get_recommendations db id ≡ ok (some (map as_served found.0))) user.0 found.1,
        omega (arith, picks.counted, l.length-items),
        Distinct-append_left (picked found.0) part.0 (
            Distinct-perm (ids l.items) (picked found.0 ++ part.0) (Perm.symm part.1)
              (AreEntries-Distinct 50 0 l.items l.items-AreEntries)),
        (part.0, subst (Perm (picked found.0 ++ part.0)) names part.1),
      )
