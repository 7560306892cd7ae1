-- ===== src/Simulator/Tests.antt =====
-- Runs of the generator, with a source that counts.
use recsys_pipeline.Common.{
  ℕ, zero, suc, ◌+◌, ◌%◌, ◌<◌, ◌≡◌, ◌≢◌, refl, ap, subst, [], ◌∷◌, length, iota, Distinct, All, ok,
  panic, arith,
}
use recsys_pipeline.Common.Int.{pos, negsuc}
use recsys_pipeline.Common.Text.{text}
use recsys_pipeline.Common.Decimal.{pad_zero}
use recsys_pipeline.Simulator.{
  Random, IsRandom, generate_items, generate_users, item_name, category_name, user_name,
  categories_of,
}

-- Each draw is the state modulo `n`, and permutations are the identity.
abbrev pub counting : Random ℕ
counting = record { intn = λ n s. (s % n, s + 1); perm = λ n s. (iota 0 n, s) }

iota-ge : (i j n : ℕ) → i < j → All (λ y. i ≢ y) (iota j n)
iota-ge i j zero h = tt
iota-ge i j (suc n) h = (λ e. absurd (omega arith), iota-ge i (suc j) n (omega arith))

pub iota-Distinct : (i n : ℕ) → Distinct (iota i n)
iota-Distinct i zero = tt
iota-Distinct i (suc n) = (iota-ge i (suc i) n (omega arith), iota-Distinct (suc i) n)

pub length-iota : (i n : ℕ) → length (iota i n) ≡ n
length-iota i zero = refl
length-iota i (suc n) = ap suc (length-iota (suc i) n)

pub iota-lt : (i n : ℕ) → All (λ j. j < i + n) (iota i n)
iota-lt i zero = tt
iota-lt i (suc n) =
    (omega arith, subst (λ m. All (λ j. j < m) (iota (suc i) n)) (omega arith) (iota-lt (suc i) n))

pub counting-IsRandom : IsRandom counting
counting-IsRandom = record {
  intn-lt = λ n s h. grind arith;
  length-perm = λ n s. length-iota 0 n;
  perm-lt = λ n s. subst (λ m. All (λ j. j < m) (iota 0 n)) (omega arith) (iota-lt 0 n);
  perm-Distinct = λ n s. iota-Distinct 0 n;
}

two_items :
    (generate_items counting (pos 2) (pos 1) 7).0
    ≡ ok (
        record { id = text "i_000000"; category_id = text "cat_000"; price = 5007 }
        ∷ record { id = text "i_000001"; category_id = text "cat_000"; price = 5008 }
        ∷ [])
unfolding generate_items item_name category_name pad_zero
two_items = refl

refused :
    ((generate_items counting (negsuc 0) (pos 50) 7).0 ≡ panic)
    × ((generate_items counting (pos 1) (pos 0) 7).0 ≡ panic)
    × ((generate_items counting (pos 0) (pos 0) 7).0 ≡ ok [])
unfolding generate_items
refused = (refl, refl, refl)

one_user :
    (generate_users counting (pos 1) 0).0
    ≡ ok (
        record {
          id = text "u_00000";
          category_prefs = text "cat_000" ∷ text "cat_001" ∷ text "cat_002" ∷ [];
        }
        ∷ [])
unfolding generate_users user_name category_name pad_zero categories_of
one_user = refl
