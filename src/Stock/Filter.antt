-- ===== src/Stock/Filter.antt =====
-- The pipelined filter against the check of one item.
use mathlib.Core.Bool.{false≢true}
use recsys_pipeline.Common.{
  ℕ, zero, suc, ◌+◌, ◌≡◌, refl, sym, ap, subst, ◌∙◌, Bool, true, not, Option, none, some, List, [],
  ◌∷◌, map, length, replicate, get_elem?, keep, All, Result, ok, err, panic, elems, arith,
  if◌then◌else◌, Bool-cases, suc_nonzero, inl, inr,
}
use recsys_pipeline.Common.Int.{ℤ}
use recsys_pipeline.Common.Text.{Text}
use recsys_pipeline.Keys.{stock_bitmap, stock_id_map}
use recsys_pipeline.Redis.{Redis, IsSnapshot, Reply, value, missing, failed}
use recsys_pipeline.Strconv.{parse_int}
use recsys_pipeline.Tier.{Recommendation, Recs}
use recsys_pipeline.Stock.{
  bit_result, at_offset, lookup_result, is_out_of_stock, offsets, kept, ids, flags, filter_items,
  filter_out_of_stock,
}
use recsys_pipeline.Stock.Flags.{
  marks-eq, clear, clear_at, stays, decisions, offsets-marks, plus_zero, shift,
}

-- The answer of the check of one item, read so that an error counts as in stock.
abbrev pub open_verdict : Result Bool → Bool
open_verdict (ok out) = not out
open_verdict (err e) = true
open_verdict panic = true

abbrev pub in_stock : Redis → Text → Bool
in_stock db item = open_verdict (is_out_of_stock db item)

clear-verdict : (bit : Reply ℕ) → clear bit ≡ open_verdict (bit_result bit)
unfolding bit_result
clear-verdict (value bit) = refl
clear-verdict missing = refl
clear-verdict (failed e) = refl

clear_at-verdict :
    (db : Redis) (offset : Option ℤ)
    → clear_at (db.get_bit stock_bitmap) offset ≡ open_verdict (at_offset db offset)
unfolding at_offset
clear_at-verdict db none = refl
clear_at-verdict db (some offset) = clear-verdict (db.get_bit stock_bitmap offset)

stays-verdict :
    (db : Redis) (reply : Reply Text)
    → stays (db.get_bit stock_bitmap) reply ≡ open_verdict (lookup_result db reply)
unfolding lookup_result
stays-verdict db (value digits) = clear_at-verdict db (parse_int digits)
stays-verdict db missing = refl
stays-verdict db (failed e) = refl

zero_plus : (n : ℕ) → n ≡ 0 + n
zero_plus n = omega arith

module _ {F : Type 0} (db : Redis) (snapshot : IsSnapshot db) where
  kept-keep :
      (reply : ℕ → Reply Text) (i : ℕ) (xs : List (Recommendation F))
      → ((k : ℕ) (key : Text) → get_elem? (ids xs) k ≡ some key → reply (i + k) ≡ db.get key)
      → kept (decisions (db.get_bit stock_bitmap) reply i xs) xs
        ≡ keep (λ x. in_stock db x.item_id) xs
  unfolding kept ids is_out_of_stock
  kept-keep reply i [] h = refl
  kept-keep reply i (x ∷ xs) h =
      let same_reply : reply i ≡ db.get (stock_id_map x.item_id) =
        subst (λ n. reply n ≡ db.get (stock_id_map x.item_id)) (plus_zero i)
          (h zero (stock_id_map x.item_id) refl) in
      let flag : stays (db.get_bit stock_bitmap) (reply i) ≡ in_stock db x.item_id =
        ap (stays (db.get_bit stock_bitmap)) same_reply
        ∙ stays-verdict db (db.get (stock_id_map x.item_id)) in
      let rest =
        kept-keep reply (suc i) xs
          λ k key e. subst (λ n. reply n ≡ db.get key) (shift i k) (h (suc k) key e) in
      λ j. if flag j then x ∷ rest j else rest j

  filter_items-keep :
      (xs : List (Recommendation F)) → filter_items db xs ≡ keep (λ x. in_stock db x.item_id) xs
  unfolding filter_items flags
  filter_items-keep xs =
      let reply = db.pipeline_get (ids xs) in
      let entries = offsets reply 0 xs in
      ap (λ bs. kept bs xs)
        (marks-eq (db.pipeline_get_bit stock_bitmap (map (λ e. e.1) entries))
            (db.get_bit stock_bitmap) 0 entries (replicate (length xs) true)
            (λ k o e.
              subst
                (λ n.
                  db.pipeline_get_bit stock_bitmap (map (λ e. e.1) entries) n
                  ≡ db.get_bit stock_bitmap o)
                (zero_plus k) (snapshot.get_bit_alone stock_bitmap (map (λ e. e.1) entries) k o e))
          ∙ offsets-marks (db.get_bit stock_bitmap) reply [] xs 0 refl)
      ∙ kept-keep reply 0 xs λ k key e.
        subst (λ n. reply n ≡ db.get key) (zero_plus k) (snapshot.get_alone (ids xs) k key e)

  -- The two pipelines keep exactly the items that the check of one item does not call out of stock,
  -- in their order; an item whose check fails is kept. A pipelined command must have the reply that
  -- it has alone.
  pub filter_out_of_stock-keep :
      (items : Recs F)
      → elems (filter_out_of_stock db items) ≡ keep (λ x. in_stock db x.item_id) (elems items)
  unfolding filter_out_of_stock
  filter_out_of_stock-keep none = refl
  filter_out_of_stock-keep (some []) = refl
  filter_out_of_stock-keep (some (x ∷ xs)) = rw suc_nonzero (filter_items-keep (x ∷ xs))

-- Out of stock: the check of the one item says so, without an error.
abbrev pub OutOfStock : Redis → Text → Type 0
OutOfStock db item = is_out_of_stock db item ≡ ok true

keep-in_stock :
    {F : Type 0} (db : Redis) (xs : List (Recommendation F))
    → All (λ x. ¬ OutOfStock db x.item_id) (keep (λ x. in_stock db x.item_id) xs)
keep-in_stock db [] = tt
keep-in_stock db (x ∷ xs) = elim (Bool-cases (in_stock db x.item_id)) [
  | inl e ↦
      rw e ((λ out. false≢true (subst (λ r. open_verdict r ≡ true) out e)), keep-in_stock db xs)
  | inr e ↦ rw e (keep-in_stock db xs)
]

-- No item that the check of one item calls out of stock gets through the filter, if a pipelined
-- command has the reply that it has alone.
pub filter_out_of_stock_sound :
    {F : Type 0} (db : Redis)
    → IsSnapshot db
    → (items : Recs F) → All (λ x. ¬ OutOfStock db x.item_id) (elems (filter_out_of_stock db items))
filter_out_of_stock_sound db snapshot items =
    subst (All (λ x. ¬ OutOfStock db x.item_id)) (sym (filter_out_of_stock-keep db snapshot items))
      (keep-in_stock db (elems items))
