-- ===== src/Simulator/Catalogue.antt =====
-- What the catalogue and the users are made of.
use mathlib.Core.List.{append_cancel_left}
use recsys_pipeline.Common.{
  ℕ, zero, suc, ◌+◌, ◌%◌, ◌<◌, ◌≤◌, ◌≡◌, ◌≢◌, refl, sym, ap, ◌∙◌, List, map, [], ◌∷◌, length, take,
  min, subst, length-map, length-take, All, All-map, All-take, Distinct-map, Distinct-take,
  All-mono, Distinct, ltb, if◌then◌else◌, Gives, >>=-Gives, Gives-mono, arith,
}
use recsys_pipeline.Common.Int.{pos}
use recsys_pipeline.Common.Text.{Text, text}
use recsys_pipeline.Common.Decimal.{pad_zero}
use recsys_pipeline.Strconv.RoundTrip.{pad_zero_injective}
use recsys_pipeline.Simulator.{
  User, Item, Random, IsRandom, item_name, category_name, user_name, num_categories, items_from,
  generate_items, categories_of, pick_random_categories, users_from, generate_users,
}

pub item_name_injective : (i j : ℕ) → item_name i ≡ item_name j → i ≡ j
unfolding item_name
item_name_injective i j e =
    pad_zero_injective 6 i j (append_cancel_left (text "i_") (pad_zero 6 i) (pad_zero 6 j) e)

pub category_name_injective : (i j : ℕ) → category_name i ≡ category_name j → i ≡ j
unfolding category_name
category_name_injective i j e =
    pad_zero_injective 3 i j (append_cancel_left (text "cat_") (pad_zero 3 i) (pad_zero 3 j) e)

pub user_name_injective : (i j : ℕ) → user_name i ≡ user_name j → i ≡ j
unfolding user_name
user_name_injective i j e =
    pad_zero_injective 5 i j (append_cancel_left (text "u_") (pad_zero 5 i) (pad_zero 5 j) e)

-- The item at index `i` of a catalogue of `k` categories.
pub record IsEntry (k i : ℕ) (x : Item) : Type 0 where
  pub named : x.id ≡ item_name i
  pub categorised : x.category_id ≡ category_name (i % k)
  pub dear : 5000 ≤ x.price
  pub cheap : x.price ≤ 200000

-- The items from index `i` on.
abbrev pub AreEntries : ℕ → ℕ → List Item → Type 0
AreEntries k i [] = Unit
AreEntries k i (x ∷ xs) = IsEntry k i x × AreEntries k (suc i) xs

abbrev pub IsUser : ℕ → User → Type 0
IsUser i u =
    (u.id ≡ user_name i)
    × (3 ≤ length u.category_prefs)
    × (length u.category_prefs ≤ 10)
    × Distinct u.category_prefs
    × All (λ c. (p : ℕ) × (p < num_categories) × (c ≡ category_name p)) u.category_prefs

abbrev pub AreUsers : ℕ → List User → Type 0
AreUsers i [] = Unit
AreUsers i (u ∷ us) = IsUser i u × AreUsers (suc i) us

later_ids :
    (k i j : ℕ) (x : Item) (xs : List Item)
    → i < j
    → IsEntry k i x
    → AreEntries k j xs
    → All (λ y. x.id ≢ y) (map (λ x. x.id) xs)
later_ids k i j x [] h e es = tt
later_ids k i j x (y ∷ ys) h e es = (
  λ same. absurd (omega (arith, item_name_injective i j (sym e.named ∙ same ∙ es.0.named))),
  later_ids k i (suc j) x ys (omega arith) e es.1,
)

pub AreEntries-Distinct :
    (k i : ℕ) (xs : List Item) → AreEntries k i xs → Distinct (map (λ x. x.id) xs)
AreEntries-Distinct k i [] e = tt
AreEntries-Distinct k i (x ∷ xs) e =
    (later_ids k i (suc i) x xs (omega arith) e.0 e.1, AreEntries-Distinct k (suc i) xs e.1)

module _ {σ : Type 0} (r : Random σ) (random : IsRandom r) where
  items_from-Gives :
      (n i k : ℕ) (s : σ)
      → Gives (λ xs _. (length xs ≡ n) × AreEntries (suc k) i xs) (items_from r n i (pos (suc k)) s)
  unfolding items_from
  items_from-Gives zero i k s = (refl, tt)
  items_from-Gives (suc n) i k s =
      let price = r.intn 195001 s in
      >>=-Gives (λ xs _. (length xs ≡ n) × AreEntries (suc k) (suc i) xs)
        (λ xs _. (length xs ≡ suc n) × AreEntries (suc k) i xs)
        (items_from r n (suc i) (pos (suc k))) _ price.1 (items_from-Gives n (suc i) k price.1)
        λ xs t h. (
          ap suc h.0,
          (
            record {
              named = refl;
              categorised = refl;
              dear = omega arith;
              cheap = omega (arith, random.intn-lt 195001 s);
            },
            h.1,
          ),
        )

  -- From a count that is not negative and one category at least, the generator returns that many
  -- items; the one at index i is called i_ and the number i, in the category i modulo the number of
  -- categories, at a price from 5000 to 200000; and no two have the same id.
  pub generate_items-Gives :
      (n k : ℕ) (s : σ)
      → Gives
          (λ xs _. (length xs ≡ n) × AreEntries (suc k) 0 xs × Distinct (map (λ x. x.id) xs))
          (generate_items r (pos n) (pos (suc k)) s)
  unfolding generate_items
  generate_items-Gives n k s =
      Gives-mono (λ xs _. (length xs ≡ n) × AreEntries (suc k) 0 xs)
        (λ xs _. (length xs ≡ n) × AreEntries (suc k) 0 xs × Distinct (map (λ x. x.id) xs))
        (items_from r n 0 (pos (suc k)) s) (items_from-Gives n 0 k s)
        λ xs t h. (h.0, h.1, AreEntries-Distinct (suc k) 0 xs h.1)

-- The first `n` numbers of a permutation, as categories; nothing is drawn.
categories_of-Gives :
    {σ : Type 0} (r : Random σ) (n : ℕ) (ps : List ℕ) (s : σ)
    → n ≤ length ps
    → Gives (λ cs t. cs ≡ map category_name (take n ps)) (categories_of r n ps s)
unfolding categories_of
categories_of-Gives r zero ps s h = refl
categories_of-Gives r (suc n) [] s h = absurd (omega arith)
categories_of-Gives r (suc n) (p ∷ ps) s h =
    >>=-Gives (λ cs t. cs ≡ map category_name (take n ps))
      (λ cs t. cs ≡ map category_name (take (suc n) (p ∷ ps))) (categories_of r n ps) _ s
      (categories_of-Gives r n ps s (omega arith)) λ cs t e. ap (◌∷◌ (category_name p)) e

-- `n` different categories of `count`.
abbrev pub AreCategories : ℕ → ℕ → List Text → Type 0
AreCategories count n cs =
    (length cs ≡ n) × Distinct cs × All (λ c. (p : ℕ) × (p < count) × (c ≡ category_name p)) cs

taken-AreCategories :
    (count n : ℕ) (ps : List ℕ) {cs : List Text}
    → n ≤ length ps
    → All (λ p. p < count) ps
    → Distinct ps
    → cs ≡ map category_name (take n ps)
    → AreCategories count n cs
taken-AreCategories count n ps short below distinct e = subst (AreCategories count n) (sym e) (
  omega (arith, length-map category_name (take n ps), length-take n ps),
  Distinct-map category_name category_name_injective (take n ps) (Distinct-take n ps distinct),
  All-map (λ c. (p : ℕ) × (p < count) × (c ≡ category_name p)) category_name (take n ps)
      (All-mono (λ p. p < count) (λ q. (p : ℕ) × (p < count) × (category_name q ≡ category_name p))
        (take n ps) (All-take (λ p. p < count) n ps below) λ q h. (q, h, refl)),
)

module _ {σ : Type 0} (r : Random σ) (random : IsRandom r) where
  -- All of the categories, if more are asked for.
  pub pick_random_categories-Gives :
      (count n : ℕ) (s : σ)
      → Gives (λ cs t. AreCategories count (min n count) cs) (pick_random_categories r count n s)
  unfolding pick_random_categories
  pick_random_categories-Gives count n s =
      let clamped : (if ltb count n then count else n) ≡ min n count = ground arith in
      Gives-mono
        (λ cs t.
          cs ≡ map category_name (take (if ltb count n then count else n) (r.perm count s).0))
        (λ cs t. AreCategories count (min n count) cs) _
        (categories_of-Gives r _ (r.perm count s).0 (r.perm count s).1
          (omega (arith, random.length-perm count s, clamped)))
        λ cs t e.
          taken-AreCategories count (min n count) (r.perm count s).0
            (omega (arith, random.length-perm count s)) (random.perm-lt count s)
            (random.perm-Distinct count s) (rw clamped at e)

  users_from-Gives :
      (n i : ℕ) (s : σ) → Gives (λ us t. (length us ≡ n) × AreUsers i us) (users_from r n i s)
  unfolding users_from
  users_from-Gives zero i s = (refl, tt)
  users_from-Gives (suc n) i s =
      let num = r.intn 8 s in
      >>=-Gives (λ cs t. AreCategories num_categories (min (3 + num.0) num_categories) cs)
        (λ us t. (length us ≡ suc n) × AreUsers i us)
        (pick_random_categories r num_categories (3 + num.0)) _ num.1
        (pick_random_categories-Gives num_categories (3 + num.0) num.1)
        λ cs t c.
          >>=-Gives (λ us u. (length us ≡ n) × AreUsers (suc i) us)
            (λ us u. (length us ≡ suc n) × AreUsers i us) (users_from r n (suc i)) _ t
            (users_from-Gives n (suc i) t)
            λ us u h. (
              ap suc h.0,
              ((refl, omega (arith, c.0), omega (arith, c.0, random.intn-lt 8 s), c.1, c.2), h.1),
            )

  -- From a count that is not negative, the generator returns that many users; the one at index i is
  -- called u_ and the number i, and prefers from 3 to 10 categories, no two the same, of the 50
  -- that there are.
  pub generate_users-Gives :
      (n : ℕ) (s : σ) → Gives (λ us t. (length us ≡ n) × AreUsers 0 us) (generate_users r (pos n) s)
  unfolding generate_users
  generate_users-Gives n s = users_from-Gives n 0 s
