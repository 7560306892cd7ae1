-- ===== src/Stock.antt =====
-- services/recommendation-api/internal/stock/bitmap.go: which items are out of stock, by a bit for
-- each item in a bitmap. Nothing of the database changes here, so the checker is an action on any
-- state.
pub mod Flags
pub mod Filter
mod Tests
use recsys_pipeline.Common.{
  ℕ, suc, Bool, true, false, Option, none, some, List, [], ◌∷◌, ◌++◌, map, length, replicate, set,
  Result, ok, err, Action, of_result, Slice, elems, ◌==◌, if◌then◌else◌,
}
use recsys_pipeline.Common.Int.{ℤ}
use recsys_pipeline.Common.Text.{Text, text}
use recsys_pipeline.Redis.{Redis, Reply, value, missing, failed}
use recsys_pipeline.Keys.{stock_bitmap, stock_id_map}
use recsys_pipeline.Strconv.{parse_int}
use recsys_pipeline.Tier.{Recommendation, Recs, StockChecker}

-- `redis.Nil` as an error value
abbrev pub redis_nil : Text
redis_nil = text "redis: nil"

unfoldable pub bit_result : Reply ℕ → Result Bool
bit_result (value bit) = ok (bit == 1)
bit_result missing = err redis_nil
bit_result (failed e) = err e

at_offset : Redis → Option ℤ → Result Bool
unfolding bit_result
at_offset db none = ok false
at_offset db (some offset) = bit_result (db.get_bit stock_bitmap offset)

lookup_result : Redis → Reply Text → Result Bool
unfolding at_offset
lookup_result db (value digits) = at_offset db (parse_int digits)
lookup_result db missing = ok false
lookup_result db (failed e) = err e

unfoldable pub is_out_of_stock : Redis → Text → Result Bool
unfolding lookup_result
is_out_of_stock db item = lookup_result db (db.get (stock_id_map item))

-- The entry that an id_map reply adds to `validOffsets`; an error is only logged.
parsed : ℕ → Option ℤ → List (ℕ × ℤ)
parsed i none = []
parsed i (some offset) = (i, offset) ∷ []

entry : ℕ → Reply Text → List (ℕ × ℤ)
unfolding parsed
entry i (value digits) = parsed i (parse_int digits)
entry i missing = []
entry i (failed e) = []

-- The loop over `idMapCmds`, from the item with index `i`.
pub offsets {ℓ} : {A : Type ℓ} → (ℕ → Reply Text) → ℕ → List A → List (ℕ × ℤ)
unfolding entry
offsets reply i [] = []
offsets reply i (x ∷ xs) = entry i (reply i) ++ offsets reply (suc i) xs

mark : Reply ℕ → ℕ → List Bool → List Bool
mark (value bit) index include = if bit == 1 then set include index false else include
mark missing index include = include
mark (failed e) index include = include

-- The loop over `bitCmds`, from the entry with index `j`.
pub marks : (ℕ → Reply ℕ) → ℕ → List (ℕ × ℤ) → List Bool → List Bool
unfolding mark
marks reply j [] include = include
marks reply j ((index, offset) ∷ entries) include =
    marks reply (suc j) entries (mark (reply j) index include)

-- The last loop: the items whose flag is set.
kept {ℓ} : {A : Type ℓ} → List Bool → List A → List A
kept [] xs = []
kept (b ∷ bs) [] = []
kept (b ∷ bs) (x ∷ xs) = let rest = kept bs xs in if b then x ∷ rest else rest

module _ {F : Type 0} where
  ids : List (Recommendation F) → List Text
  ids items = map (λ x. stock_id_map x.item_id) items

  flags : Redis → List (Recommendation F) → List Bool
  unfolding ids offsets marks
  flags db items =
      let entries = offsets (db.pipeline_get (ids items)) 0 items in
      marks (db.pipeline_get_bit stock_bitmap (map (λ e. e.1) entries)) 0 entries
        (replicate (length items) true)

  filter_items : Redis → List (Recommendation F) → List (Recommendation F)
  unfolding flags kept
  filter_items db items = kept (flags db items) items

  -- The whole function never returns an error.
  unfoldable pub filter_out_of_stock : Redis → Recs F → Recs F
  unfolding filter_items
  filter_out_of_stock db items =
      if length (elems items) == 0 then items else some (filter_items db (elems items))

-- The checker as the router sees it.
unfoldable pub bitmap_checker : {σ F : Type 0} → Redis → StockChecker σ F
unfolding is_out_of_stock filter_out_of_stock
bitmap_checker db = record {
  is_out_of_stock = λ item. of_result (is_out_of_stock db item);
  filter_out_of_stock = λ items. of_result (ok (filter_out_of_stock db items));
}
