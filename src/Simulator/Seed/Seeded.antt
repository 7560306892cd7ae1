-- ===== src/Simulator/Seed/Seeded.antt =====
-- What the database holds after all writes of the seeding.
use recsys_pipeline.Common.{
  ◌≡◌, ◌≢◌, refl, sym, ap, ◌∙◌, List, [], ◌∷◌, map, length, take, All, Distinct, arith, some,
}
use recsys_pipeline.Common.Float.{Float}
use recsys_pipeline.Common.Text.{Text, text}
use recsys_pipeline.Common.Decimal.{itoa}
use recsys_pipeline.Keys.{rec_top_k, stock_id_map}
use recsys_pipeline.Keys.Apart.{keys_injective}
use recsys_pipeline.Simulator.{Item, User}
use recsys_pipeline.Simulator.Seed.{
  Command, Recommendation, next_bit_key, popular_key, capped, popular_from,
}
use recsys_pipeline.Simulator.Seed.Writes.{View, update, written, written_other, written_first}
use recsys_pipeline.Simulator.Seed.Mapped.{
  AreMapped, AreMapped-agree, stock_commands, stock_commands-AreMapped,
}
use recsys_pipeline.Simulator.Seed.Serving.{
  IsServed, AreCommands, AreCommands-avoid, AreCommands-IsServed,
}

update_other : (v : View) (c : Command) (k : Text) → c.key ≢ k → update v c k ≡ v k
update_other v c k h = written_other (c ∷ []) v k (h, tt)

update_self : (v : View) (c : Command) → update v c c.key ≡ some c.value
update_self v c = written_first c [] v c.key refl tt

users_avoid :
    (k : Text)
    → ((id : Text) → rec_top_k id ≢ k)
    → (us : List User) → All (λ u. rec_top_k u.id ≢ k) us
users_avoid k h [] = tt
users_avoid k h (u ∷ us) = (h u.id, users_avoid k h us)

unpopular :
    (us : List User)
    → All (λ u. u.id ≢ text "popular") us
    → All (λ u. rec_top_k u.id ≢ rec_top_k (text "popular")) us
unpopular [] h = tt
unpopular (u ∷ us) h = ((λ e. h.0 ((keys_injective u.id (text "popular")).0.0 e)), unpopular us h.1)

rec-ne-map : (u i : Text) → rec_top_k u ≢ stock_id_map i
unfolding rec_top_k stock_id_map
rec-ne-map u i e = ground arith

rec-ne-next : (u : Text) → rec_top_k u ≢ next_bit_key
unfolding rec_top_k
rec-ne-next u e = ground arith

next-ne-map : (i : Text) → next_bit_key ≢ stock_id_map i
unfolding stock_id_map
next-ne-map i e = ground arith

popular-ne-map : (i : Text) → popular_key ≢ stock_id_map i
unfolding stock_id_map
popular-ne-map i e = ground arith

popular_key-rec : popular_key ≡ rec_top_k (text "popular")
unfolding rec_top_k
popular_key-rec = refl

-- The place of every item, the next free place, the popular items and, for each user, the
-- recommendations.
pub record IsSeeded {F : Type 0} ⦃f : Float F⦄ (encoding : List (Recommendation F) → Text)
    (users : List User) (items : List Item) (v : View) : Type 0 where
  pub mapped : AreMapped v 0 items
  pub next_free : v next_bit_key ≡ some (itoa (length items))
  pub popular :
      v (rec_top_k (text "popular"))
      ≡ some
          (encoding (popular_from (capped (length items)) 0 (take (capped (length items)) items)))
  pub served : All (IsServed encoding items v) users

abbrev pub next_command : List Item → Command
next_command items = record { key = next_bit_key; value = itoa (length items); ttl = 0 }

abbrev pub popular_command :
    {F : Type 0} ⦃f : Float F⦄ → (List (Recommendation F) → Text) → List Item → Command
popular_command encoding items = record {
  key = popular_key;
  value = encoding (popular_from (capped (length items)) 0 (take (capped (length items)) items));
  ttl = 0;
}

pub written-IsSeeded :
    {F : Type 0} ⦃f : Float F⦄ (encoding : List (Recommendation F) → Text) (users : List User)
    (items : List Item) (cs : List Command) (v : View)
    → Distinct (map (λ x. x.id) items)
    → Distinct (map (λ u. u.id) users)
    → All (λ u. u.id ≢ text "popular") users
    → AreCommands encoding items users cs
    → IsSeeded encoding users items (
        written cs (
          update
            (update (written (stock_commands 0 items) v) (next_command items))
            (popular_command encoding items)))
written-IsSeeded encoding users items cs v di du named a =
    let v0 = written (stock_commands 0 items) v in
    let v1 = update v0 (next_command items) in
    let v2 = update v1 (popular_command encoding items) in
    let kept = λ (k : Text) (h : (id : Text) → rec_top_k id ≢ k).
      written_other cs v2 k
        (AreCommands-avoid encoding items k users cs (users_avoid k h users) a) in
    record {
      mapped =
          AreMapped-agree v0 (written cs v2) 0 items
            (λ id.
              kept (stock_id_map id) (λ u. rec-ne-map u id)
              ∙ update_other v1 (popular_command encoding items) (stock_id_map id)
                  (popular-ne-map id)
              ∙ update_other v0 (next_command items) (stock_id_map id) (next-ne-map id))
            (stock_commands-AreMapped 0 items v di);
      next_free =
          kept next_bit_key rec-ne-next
          ∙ update_other v1 (popular_command encoding items) next_bit_key (λ e. ground arith)
          ∙ update_self v0 (next_command items);
      popular =
          written_other cs v2 (rec_top_k (text "popular")) (
            AreCommands-avoid encoding items (rec_top_k (text "popular")) users cs
              (unpopular users named) a)
          ∙ ap v2 (sym popular_key-rec)
          ∙ update_self v1 (popular_command encoding items);
      served = AreCommands-IsServed encoding items users cs v2 du a;
    }
