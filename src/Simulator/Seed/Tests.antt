-- ===== src/Simulator/Seed/Tests.antt =====
-- Seeding of a database that takes every write, by a generator that always draws 0.
use mathlib.Core.List.Perm
use recsys_pipeline.Common.{
  ℕ, zero, suc, ◌+◌, ◌*◌, ◌/◌, ◌<◌, ◌≡◌, refl, sym, ap, subst, ◌∙◌, false, none, some, List, [],
  ◌∷◌, ◌++◌, append-nil, append_assoc, map, iota, All, Distinct, ok, Gives, Gives-elim, ◌>>=◌,
  arith, ltb, leb,
}
use recsys_pipeline.Common.Int.{pos, pos_part}
use recsys_pipeline.Common.Float.{Float}
use recsys_pipeline.Common.Text.{Text, text, same}
use recsys_pipeline.Common.Decimal.{itoa}
use recsys_pipeline.Keys.{stock_bitmap}
use recsys_pipeline.Redis.{Redis, value, missing}
use recsys_pipeline.Tier
use recsys_pipeline.Stock.{is_out_of_stock, bit_result}
use recsys_pipeline.Dragonfly.{Database, get_recommendations}
use recsys_pipeline.Simulator.{Item, User, Random, IsRandom}
use recsys_pipeline.Simulator.Tests.{length-iota, iota-lt, iota-Distinct}
use recsys_pipeline.Simulator.Seed.{
  Client, Recommendation, build_category_index, generate_user_recs, seed_dragonfly,
  seed_stock_mappings, next_bit_key,
}
use recsys_pipeline.Simulator.Seed.Writes.{View, update, written, IsWorking}
use recsys_pipeline.Simulator.Seed.Mapped.{stock_commands}
use recsys_pipeline.Simulator.Seed.Batches.{thousands, write_all, seed_stock_mappings-write_all}
use recsys_pipeline.Simulator.Seed.Picks.{ArePicks}
use recsys_pipeline.Simulator.Seed.Seeded.{IsSeeded}
use recsys_pipeline.Simulator.Seed.Seeding.{seed_dragonfly-IsSeeded}
use recsys_pipeline.Simulator.Seed.Initial.{seed_main, IsLoaded, seed_main-IsLoaded}
use recsys_pipeline.Simulator.Seed.Served.{
  reply_of, as_served, IsReading, is_out_of_stock-IsSeeded, get_recommendations-IsSeeded,
}

instance abbrev pub whole : Float ℕ
whole = record {
  lt = ltb;
  le = leb;
  add = λ a b. a + b;
  mul = λ a b. a * b;
  div = λ a b. a / b;
  decimal = λ m k. pos_part m;
  is_nan = λ x. false;
}

-- An encoding of recommendations: the bytes of an id, each plus 1, a 0, and the score.
abbrev pub encode : List (Recommendation ℕ) → Text
encode [] = []
encode (x ∷ xs) = map suc x.item_id ++ zero ∷ x.score ∷ encode xs

abbrev pub decode : Text → Text → List (Tier.Recommendation ℕ)
decode id [] = []
decode id (zero ∷ []) = []
decode id (zero ∷ score ∷ rest) = record { item_id = id; score = score } ∷ decode [] rest
decode id (suc c ∷ rest) = decode (id ++ c ∷ []) rest

decode-id :
    (front id : Text) (score : ℕ) (rest : Text)
    → decode front (map suc id ++ zero ∷ score ∷ rest)
      ≡ record { item_id = front ++ id; score = score } ∷ decode [] rest
decode-id front [] score rest =
    λ i. record { item_id = sym (append-nil front) i; score = score } ∷ decode [] rest
decode-id front (c ∷ id) score rest = decode-id (front ++ c ∷ []) id score rest ∙ λ i.
    record { item_id = append_assoc front (c ∷ []) id i; score = score } ∷ decode [] rest

pub decode-encode : (xs : List (Recommendation ℕ)) → decode [] (encode xs) ≡ map as_served xs
decode-encode [] = refl
decode-encode (x ∷ xs) =
    decode-id [] x.item_id x.score (encode xs) ∙ ap (◌∷◌ (as_served x)) (decode-encode xs)

abbrev pub memory : Client View ℕ
memory = record {
  exec = λ cs v. (ok tt, written cs v);
  put = λ c v. (ok tt, update v c);
  iterate = λ idx v. (idx, v);
  shuffle = λ n v. ([], v);
  sort_slice = λ before xs. xs;
  marshal = λ recs. ok (encode recs);
}

abbrev pub as_is : View → View
as_is v = v

abbrev pub memory_works : IsWorking memory as_is
memory_works = record {
  exec-Gives = λ cs s. refl;
  put-Gives = λ c s. refl;
  iterate_keeps = λ idx s. refl;
  iterate-perm = λ idx s. Perm.refl idx;
  shuffle_keeps = λ n s. refl;
  shuffle_below = λ n s. tt;
  sort_slice-perm = λ before xs. Perm.refl xs;
  encoding = encode;
  marshal_ok = λ xs. refl;
}

abbrev pub zeros : Random View
zeros = record { intn = λ n s. (0, s); perm = λ n s. (iota 0 n, s) }

pub zeros-IsRandom : IsRandom zeros
zeros-IsRandom = record {
  intn-lt = λ n s h. h;
  length-perm = λ n s. length-iota 0 n;
  perm-lt = λ n s. subst (λ m. All (λ j. j < m) (iota 0 n)) (omega arith) (iota-lt 0 n);
  perm-Distinct = λ n s. iota-Distinct 0 n;
}

abbrev pub empty : View
empty k = none

abbrev item : Text → Text → Item
item id cat = record { id = id; category_id = cat; price = 5000 }

abbrev three : List Item
three =
    item (text "i_0") (text "a") ∷ item (text "i_1") (text "b") ∷ item (text "i_2") (text "a") ∷ []

abbrev reader : User
reader = record { id = text "u_0"; category_prefs = text "b" ∷ text "c" ∷ [] }

three-Distinct : Distinct (map (λ x. x.id) three)
three-Distinct =
    (((λ e. ground arith), ((λ e. ground arith), tt)), (((λ e. ground arith), tt), (tt, tt)))

reader-Distinct : Distinct reader.category_prefs
reader-Distinct = (((λ e. ground arith), tt), (tt, tt))

indexed :
    build_category_index three
    ≡ (text "a", item (text "i_0") (text "a") ∷ item (text "i_2") (text "a") ∷ [])
      ∷ (text "b", item (text "i_1") (text "b") ∷ [])
      ∷ []
unfolding build_category_index same
indexed = refl

-- The preferred item comes first, as nothing is shuffled.
recommended :
    (generate_user_recs memory reader (build_category_index three) empty).0
    ≡ ok (
        record { item_id = text "i_1"; score = 1 }
        ∷ record { item_id = text "i_0"; score = 0 }
        ∷ record { item_id = text "i_2"; score = 0 }
        ∷ [])
unfolding generate_user_recs build_category_index same
recommended = refl

mapped : (seed_stock_mappings memory three empty).1 (text "stock:id_map:i_2") ≡ some (text "2")
unfolding seed_stock_mappings same itoa
mapped = refl

seed_main-IsLoaded_example : Gives (λ _ t. IsLoaded encode (as_is t)) (seed_main zeros memory empty)
seed_main-IsLoaded_example = seed_main-IsLoaded zeros memory as_is zeros-IsRandom memory_works empty

shop : View
shop = (seed_dragonfly memory (reader ∷ []) three empty).1

shop-IsSeeded : IsSeeded encode (reader ∷ []) three shop
unfolding shop
shop-IsSeeded =
    (Gives-elim (λ _ t. IsSeeded encode (reader ∷ []) three t) _
      (seed_dragonfly-IsSeeded memory as_is memory_works (reader ∷ []) three empty three-Distinct
        (tt, tt) ((λ e. ground arith), tt) (reader-Distinct, tt))).2

abbrev replies : Redis
replies = record {
  get = λ k. reply_of (shop k);
  get_bit = λ k o. value 1;
  pipeline_get = λ ks i. missing;
  pipeline_get_bit = λ k os i. missing;
}

checks_third_item :
    is_out_of_stock replies (text "i_2") ≡ bit_result (replies.get_bit stock_bitmap (pos 2))
checks_third_item =
    is_out_of_stock-IsSeeded encode (reader ∷ []) three shop replies 2
      (item (text "i_2") (text "a")) shop-IsSeeded (λ k. refl) (omega arith) refl

abbrev database : Database ℕ
database = record {
  get = λ k. reply_of (shop k);
  members = λ key. ok [];
  get_all = λ ks. ok [];
  decode_recs = λ json. ok (some (decode [] json));
  decode_experiment = λ json. none;
}

database-IsReading : IsReading database shop encode
database-IsReading = record {
  get-eq = λ k. refl;
  decode-encoding = λ recs. λ i. ok (some (decode-encode recs i));
}

finds_reader :
    (recs : List (Recommendation ℕ)) × (get_recommendations database (text "u_0")
      ≡ ok (some (map as_served recs)))
    × ArePicks reader.category_prefs three recs
finds_reader =
    get_recommendations-IsSeeded encode (reader ∷ []) three shop database shop-IsSeeded
      database-IsReading 0 reader refl

seed_stock_mappings-write_all_example :
    seed_stock_mappings memory three empty
    ≡ (write_all memory (text "exec stock batch at ") 0 (thousands 3 (stock_commands 0 three))
          >>= λ _. memory.put (record { key = next_bit_key; value = itoa 3; ttl = 0 }))
        empty
seed_stock_mappings-write_all_example = seed_stock_mappings-write_all memory three empty
