-- ===== src/Handler/Limit.antt =====
-- The limit of a request.
use recsys_pipeline.Common.{
  ℕ, zero, suc, ◌≤◌, ◌≡◌, refl, sym, ◌∙◌, ap, false, Option, none, some, [], ◌∷◌, arith, Bool-cases,
  inl, inr,
}
use recsys_pipeline.Common.Int.{ℤ, pos, negsuc, ltb_ℤ}
use recsys_pipeline.Common.Text.{Text}
use recsys_pipeline.Strconv.{atoi}
use recsys_pipeline.Handler.{given_limit, requested, query_limit}

-- From 1 to 100.
pub record InRange (z : ℤ) : Type 0 where
  pub number : ℕ
  pub same_number : z ≡ pos number
  pub positive : 1 ≤ number
  pub bounded : number ≤ 100

abbrev Positive : ℤ → Type 0
Positive z = (n : ℕ) × (z ≡ pos (suc n))

given_limit-Positive : (o : Option ℤ) → Positive (given_limit o)
unfolding given_limit
given_limit-Positive none = (19, refl)
given_limit-Positive (some (pos zero)) = (19, refl)
given_limit-Positive (some (pos (suc n))) = elim (Bool-cases (ltb_ℤ (pos 0) (pos (suc n)))) [
  | inl e ↦ (n, rw e)
  | inr e ↦ absurd (ground arith)
]
given_limit-Positive (some (negsuc n)) = elim (Bool-cases (ltb_ℤ (pos 0) (negsuc n))) [
  | inl e ↦ absurd (ground arith)
  | inr e ↦ (19, rw e)
]

requested-Positive : (s : Text) → Positive (requested s)
unfolding requested
requested-Positive [] = (19, refl)
requested-Positive (c ∷ s) = given_limit-Positive (atoi (c ∷ s))

-- Whatever the query says, the limit that the recommender is asked for is from 1 to 100.
pub query_limit-InRange : (s : Text) → InRange (query_limit s)
unfolding query_limit
query_limit-InRange s =
    let (n, e) = requested-Positive s in
    elim (Bool-cases (ltb_ℤ (pos 100) (requested s))) [
      | inl h ↦ rw h (record {
        number = 100;
        same_number = refl;
        positive = omega arith;
        bounded = omega arith;
      })
      | inr h ↦ rw h (record {
        number = suc n;
        same_number = e;
        positive = omega arith;
        bounded = under n (ap (ltb_ℤ (pos 100)) (sym e) ∙ h);
      })
    ]
  where
    under : (n : ℕ) → ltb_ℤ (pos 100) (pos (suc n)) ≡ false → suc n ≤ 100
    under n h = ground arith
