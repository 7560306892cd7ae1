-- ===== src/Simulator.antt =====
-- services/traffic-simulator/internal/generator: types.go, items.go and users.go, which make up the
-- catalogue and the users that the database is seeded with. The functions of math/rand are
-- parameters, and `σ` is the state that they share.
pub mod Catalogue
pub mod Seed
pub mod Traffic
mod Tests
use recsys_pipeline.Common.{
  ℕ, zero, suc, ◌+◌, ◌*◌, ◌%◌, ◌<◌, ◌≡◌, Bool, true, false, List, [], ◌∷◌, ◌++◌, Result, ok, panic,
  Action, ◌>>=◌, pure, of_result, length, All, Distinct, ltb, if◌then◌else◌,
}
use recsys_pipeline.Common.Int.{ℤ, pos, negsuc}
use recsys_pipeline.Common.Text.{Text, text}
use recsys_pipeline.Common.Decimal.{pad_zero}

pub record User : Type 0 where
  pub id : Text
  pub category_prefs : List Text

pub record Item : Type 0 where
  pub id : Text
  pub category_id : Text
  pub price : ℕ

-- `rand.Intn` and `rand.Perm`, of numbers that are not 0.
pub record Random (σ : Type 0) : Type 0 where
  pub intn : ℕ → σ → ℕ × σ
  pub perm : ℕ → σ → List ℕ × σ

-- As math/rand documents them: a number below `n`, and the numbers below `n` in some order.
pub record IsRandom {σ : Type 0} (r : Random σ) : Type 0 where
  pub intn-lt : (n : ℕ) (s : σ) → 0 < n → (r.intn n s).0 < n
  pub length-perm : (n : ℕ) (s : σ) → length (r.perm n s).0 ≡ n
  pub perm-lt : (n : ℕ) (s : σ) → All (λ i. i < n) (r.perm n s).0
  pub perm-Distinct : (n : ℕ) (s : σ) → Distinct (r.perm n s).0

-- A call that always returns.
abbrev pub total : {σ A : Type 0} → (σ → A × σ) → Action σ A
total f s = (ok (f s).0, (f s).1)

-- `i % n` for `i` that is not negative: the remainder has the sign of `i`, and `n` must not be 0.
abbrev pub remainder : ℕ → ℤ → Result ℕ
remainder i (pos zero) = panic
remainder i (pos (suc n)) = ok (i % suc n)
remainder i (negsuc n) = ok (i % suc n)

-- The texts that `%06d`, `%03d` and `%05d` give.
unfoldable pub item_name : ℕ → Text
item_name i = text "i_" ++ pad_zero 6 i

unfoldable pub category_name : ℕ → Text
category_name i = text "cat_" ++ pad_zero 3 i

unfoldable pub user_name : ℕ → Text
user_name i = text "u_" ++ pad_zero 5 i

abbrev pub num_categories : ℕ
num_categories = 50

module _ {σ : Type 0} (r : Random σ) where
  -- The loop of `GenerateItems` from index `i`, with the rounds that are left.
  unfoldable pub items_from : ℕ → ℕ → ℤ → Action σ (List Item)
  items_from zero i categories = pure []
  items_from (suc n) i categories = do
    cat_idx ← of_result (remainder i categories)
    price ← total (r.intn 195001)
    items ← items_from n (suc i) categories
    pure (
        record { id = item_name i; category_id = category_name cat_idx; price = 5000 + price }
        ∷ items)

  -- `make` panics on a negative length.
  unfoldable pub generate_items : ℤ → ℤ → Action σ (List Item)
  unfolding items_from
  generate_items (pos count) categories = items_from count 0 categories
  generate_items (negsuc count) categories = of_result panic

  -- The loop of `pickRandomCategories` over `perm`, with the rounds that are left.
  unfoldable pub categories_of : ℕ → List ℕ → Action σ (List Text)
  categories_of zero perm = pure []
  categories_of (suc n) [] = of_result panic
  categories_of (suc n) (p ∷ perm) = do cats ← categories_of n perm; pure (category_name p ∷ cats)

  unfoldable pub pick_random_categories : ℕ → ℕ → Action σ (List Text)
  pick_random_categories total_count n = do
    perm ← total (r.perm total_count)
    categories_of (if ltb total_count n then total_count else n) perm

  -- The loop of `GenerateUsers`, likewise.
  unfoldable pub users_from : ℕ → ℕ → Action σ (List User)
  unfolding pick_random_categories
  users_from zero i = pure []
  users_from (suc n) i = do
    num_prefs ← total (r.intn 8)
    prefs ← pick_random_categories num_categories (3 + num_prefs)
    users ← users_from n (suc i)
    pure (record { id = user_name i; category_prefs = prefs } ∷ users)

  unfoldable pub generate_users : ℤ → Action σ (List User)
  unfolding users_from
  generate_users (pos count) = users_from count 0
  generate_users (negsuc count) = of_result panic
