-- ===== src/Simulator/Seed/Served.antt =====
-- What the recommendation API reads in a seeded database.
use recsys_pipeline.Common.{
  ℕ, zero, suc, ◌+◌, ◌^◌, ◌<◌, ◌≤◌, ◌≡◌, refl, sym, ap, subst, ◌∙◌, Option, none, some, List, [],
  ◌∷◌, map, length, get_elem?, All, ok, arith, truncate, take, take_all, length-map, Bool-cases,
  inl, inr, ltb,
}
use recsys_pipeline.Common.Int.{pos}
use recsys_pipeline.Common.Float.{Float}
use recsys_pipeline.Common.Text.{Text, text}
use recsys_pipeline.Common.Decimal.{itoa}
use recsys_pipeline.Strconv.RoundTrip.{parse_int-itoa}
use recsys_pipeline.Strconv.{parse_int}
use recsys_pipeline.Keys.{stock_id_map, stock_bitmap, rec_top_k}
use recsys_pipeline.Redis.{Redis, Reply, value, missing}
use recsys_pipeline.Tier
use recsys_pipeline.Stock.{is_out_of_stock, bit_result}
use recsys_pipeline.Dragonfly.{Database, decoded, get_recommendations, get_popular_items}
use recsys_pipeline.Simulator.{Item, User}
use recsys_pipeline.Simulator.Seed.{Recommendation, top_k_count, capped, popular_from}
use recsys_pipeline.Simulator.Seed.Writes.{View}
use recsys_pipeline.Simulator.Seed.Mapped.{AreMapped}
use recsys_pipeline.Simulator.Seed.Picks.{ArePicks}
use recsys_pipeline.Simulator.Seed.Seeded.{IsSeeded}
use recsys_pipeline.Simulator.Seed.Serving.{IsServed}

-- The reply to GET.
abbrev pub reply_of : Option Text → Reply Text
reply_of none = missing
reply_of (some s) = value s

AreMapped-get :
    (v : View) (j : ℕ) (xs : List Item) (i : ℕ) (x : Item)
    → AreMapped v j xs
    → get_elem? xs i ≡ some x
    → v (stock_id_map x.id) ≡ some (itoa (j + i))
AreMapped-get v j [] i x m e = absurd (ground arith)
AreMapped-get v j (y ∷ ys) zero x m e =
    let is_x : y ≡ x = cc in
    subst (λ n. v (stock_id_map x.id) ≡ some (itoa n)) (omega arith)
      (subst (λ y. v (stock_id_map y.id) ≡ some (itoa j)) is_x m.0)
AreMapped-get v j (y ∷ ys) (suc i) x m e =
    subst (λ n. v (stock_id_map x.id) ≡ some (itoa n)) (omega arith)
      (AreMapped-get v (suc j) ys i x m.1 e)

get_elem?-lt_length :
    {A : Type 0} (xs : List A) (i : ℕ) (x : A) → get_elem? xs i ≡ some x → i < length xs
get_elem?-lt_length [] i x e = absurd (ground arith)
get_elem?-lt_length (y ∷ ys) zero x e = omega arith
get_elem?-lt_length (y ∷ ys) (suc i) x e = omega (arith, get_elem?-lt_length ys i x e)

-- In a seeded database, the check of the item at index i of the catalogue reads the bit at the
-- offset i of the stock bitmap, if the catalogue has no more than 2 ^ 63 items and a GET gives what
-- the database holds.
pub is_out_of_stock-IsSeeded :
    {F : Type 0} ⦃f : Float F⦄ (encoding : List (Recommendation F) → Text) (users : List User)
    (items : List Item) (v : View) (db : Redis) (i : ℕ) (x : Item)
    → IsSeeded encoding users items v
    → ((k : Text) → db.get k ≡ reply_of (v k))
    → length items ≤ 2 ^ 63
    → get_elem? items i ≡ some x
    → is_out_of_stock db x.id ≡ bit_result (db.get_bit stock_bitmap (pos i))
unfolding is_out_of_stock
is_out_of_stock-IsSeeded encoding users items v db i x seeded gets short at =
    let place : v (stock_id_map x.id) ≡ some (itoa i) =
      subst (λ n. v (stock_id_map x.id) ≡ some (itoa n)) (omega arith)
        (AreMapped-get v 0 items i x seeded.mapped at) in
    let offset : parse_int (itoa i) ≡ some (pos i) =
      parse_int-itoa i (omega (arith, get_elem?-lt_length items i x at)) in
    rw (gets (stock_id_map x.id), place, offset) refl

-- The API's record of a recommendation, which has the same JSON fields.
abbrev pub as_served : {F : Type 0} → Recommendation F → Tier.Recommendation F
as_served x = record { item_id = x.item_id; score = x.score }

-- The API's decoder reads what the generator's encoder wrote, and a GET gives what the database
-- holds.
pub record IsReading {F : Type 0} (db : Database F) (v : View)
    (encoding : List (Recommendation F) → Text) : Type 0 where
  pub get-eq : (k : Text) → db.get k ≡ reply_of (v k)
  pub decode-encoding :
      (recs : List (Recommendation F))
      → db.decode_recs (encoding recs) ≡ ok (some (map as_served recs))

All-get :
    {A : Type 0} (P : A → Type 0) (xs : List A) (i : ℕ) (x : A)
    → All P xs
    → get_elem? xs i ≡ some x
    → P x
All-get P [] i x h e = absurd (ground arith)
All-get P (y ∷ ys) zero x h e = subst P (cc) h.0
All-get P (y ∷ ys) (suc i) x h e = All-get P ys i x h.1 e

pub truncate-take :
    {A : Type 0} (n : ℕ) (xs : List A) → truncate (pos n) (some xs) ≡ ok (some (take n xs))
unfolding truncate
truncate-take n xs = elim (Bool-cases (ltb n (length xs))) [
  | inl e ↦ ground arith
  | inr e ↦ ground (arith, take_all n xs)
]

map-take {ℓ κ} :
    {A : Type ℓ} {B : Type κ} (f : A → B) (n : ℕ) (xs : List A)
    → map f (take n xs) ≡ take n (map f xs)
map-take f zero xs = refl
map-take f (suc n) [] = refl
map-take f (suc n) (x ∷ xs) = ap (◌∷◌ (f x)) (map-take f n xs)

served_ids :
    (F : Type 0) ⦃f : Float F⦄ (count i : ℕ) (xs : List Item)
    → map (λ x. x.item_id) (map as_served (popular_from {F = F} count i xs)) ≡ map (λ x. x.id) xs
unfolding popular_from
served_ids F count i [] = refl
served_ids F count i (x ∷ xs) = ap (◌∷◌ x.id) (served_ids F count (suc i) xs)

take-capped :
    {A : Type 0} (xs : List A) (n : ℕ) → length xs ≡ n → take (capped n) xs ≡ take top_k_count xs
take-capped xs n e = elim (Bool-cases (ltb n top_k_count)) [
  | inl h ↦ rw h (take_all n xs (omega arith) ∙ sym (take_all top_k_count xs (ground arith)))
  | inr h ↦ rw h refl
]

module _ {F : Type 0} ⦃f : Float F⦄ (encoding : List (Recommendation F) → Text) (users : List User)
    (items : List Item) (v : View) (db : Database F) (seeded : IsSeeded encoding users items v)
    (reads : IsReading db v encoding) where
  -- In a seeded database, the store finds recommendations for every user that was seeded, and they
  -- are of those that the user may be given.
  pub get_recommendations-IsSeeded :
      (i : ℕ) (u : User)
      → get_elem? users i ≡ some u
      → (recs : List (Recommendation F)) × (get_recommendations db u.id
          ≡ ok (some (map as_served recs)))
        × ArePicks u.category_prefs items recs
  unfolding get_recommendations
  get_recommendations-IsSeeded i u at =
      let served = All-get (IsServed encoding items v) users i u seeded.served at in
      let recs = served.2.0 in
      let is_text : v (rec_top_k u.id) ≡ some (encoding recs) = served.1 ∙ ap some served.2.1 in
      (recs, rw (reads.get-eq (rec_top_k u.id), is_text) (reads.decode-encoding recs), served.2.2)

  -- For a request of `n` popular items it finds the first items of the catalogue, 100 and `n` at
  -- most.
  pub get_popular_items-IsSeeded :
      (n : ℕ)
      → (recs : List (Tier.Recommendation F)) × (get_popular_items db (pos n) ≡ ok (some recs))
        × (map (λ x. x.item_id) recs ≡ take n (take top_k_count (map (λ x. x.id) items)))
  unfolding get_popular_items
  get_popular_items-IsSeeded n =
      let chosen =
        popular_from {F = F} (capped (length items)) 0 (take (capped (length items)) items) in
      let served = map as_served chosen in
      let found : decoded db (db.get (rec_top_k (text "popular"))) ≡ ok (some served) =
        rw (reads.get-eq (rec_top_k (text "popular")), seeded.popular)
          (reads.decode-encoding chosen) in
      (
        take n served,
        rw found (truncate-take n served),
        map-take (λ x. x.item_id) n served
            ∙ ap (take n) (
                served_ids F (capped (length items)) 0 (take (capped (length items)) items)
                ∙ map-take (λ x. x.id) (capped (length items)) items
                ∙ take-capped (map (λ x. x.id) items) (length items)
                    (length-map (λ x. x.id) items)),
      )
