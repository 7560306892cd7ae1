-- ===== src/Stock/Tests.antt =====
-- The stock filter on a database of three items, of which the second is sold out and the third is
-- not in the index.
use recsys_pipeline.Common.{
  ℕ, ◌≡◌, refl, some, none, [], ◌∷◌, get_elem?, keep, elems, ◌==◌, if◌then◌else◌, Option,
}
use recsys_pipeline.Common.Int.{ℤ, pos, negsuc}
use recsys_pipeline.Common.Text.{Text, text, same}
use recsys_pipeline.Keys.{stock_id_map, stock_bitmap}
use recsys_pipeline.Redis.{Redis, IsSnapshot, Reply, value, missing}
use recsys_pipeline.Strconv.{parse_int}
use recsys_pipeline.Tier.{Recommendation, Recs}
use recsys_pipeline.Stock.{filter_out_of_stock}
use recsys_pipeline.Stock.Filter.{in_stock, filter_out_of_stock-keep}

abbrev answer_at : (Text → Reply Text) → Option Text → Reply Text
answer_at get none = missing
answer_at get (some k) = get k

abbrev bit_answer_at : (ℤ → Reply ℕ) → Option ℤ → Reply ℕ
bit_answer_at bit none = missing
bit_answer_at bit (some o) = bit o

abbrev index : Text → Reply Text
index k =
    if same k (text "stock:id_map:i_1")
    then value (text "0")
    else if same k (text "stock:id_map:i_2")
    then value (text "1")
    else missing

abbrev bits : ℤ → Reply ℕ
bits (pos n) = value (if n == 1 then 1 else 0)
bits (negsuc n) = missing

abbrev shop : Redis
shop = record {
  get = index;
  get_bit = λ k o. bits o;
  pipeline_get = λ ks i. answer_at index (get_elem? ks i);
  pipeline_get_bit = λ k os i. bit_answer_at bits (get_elem? os i);
}

shop-IsSnapshot : IsSnapshot shop
shop-IsSnapshot = record { get_alone = λ ks i k e. rw e; get_bit_alone = λ k os i o e. rw e }

abbrev item : Text → Recommendation ℕ
item id = record { item_id = id; score = 1 }

abbrev catalogue : Recs ℕ
catalogue = some (item (text "i_1") ∷ item (text "i_2") ∷ item (text "i_3") ∷ [])

second_dropped :
    filter_out_of_stock shop catalogue ≡ some (item (text "i_1") ∷ item (text "i_3") ∷ [])
unfolding filter_out_of_stock same stock_id_map stock_bitmap parse_int
second_dropped = refl

filter_out_of_stock-keep_example :
    elems (filter_out_of_stock shop catalogue)
    ≡ keep (λ x. in_stock shop x.item_id) (elems catalogue)
filter_out_of_stock-keep_example = filter_out_of_stock-keep shop shop-IsSnapshot catalogue
