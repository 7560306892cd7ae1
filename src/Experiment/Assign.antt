-- ===== src/Experiment/Assign.antt =====
-- Which experiment a user is assigned to, from the running sums of the traffic percentages.
use recsys_pipeline.Common.{
  ℕ, suc, ◌≡◌, ◌<◌, refl, true, some, List, [], ◌∷◌, get_elem?, arith, if◌then◌else◌, Bool-cases,
  inl, inr,
}
use recsys_pipeline.Common.Int.{pos}
use recsys_pipeline.Common.Text.{Text}
use recsys_pipeline.Common.Float.{Float}
use recsys_pipeline.Experiment.{Experiment, hash_bucket, assign}

-- Every user falls into one of a hundred buckets.
hash_bucket_bound : (user : Text) → hash_bucket user < 100
unfolding hash_bucket
hash_bucket_bound user = omega arith

module _ {F : Type 0} ⦃f : Float F⦄ where
  -- The sums of the percentages up to each experiment.
  abbrev pub running_sums : F → List (Experiment F) → List F
  running_sums c [] = []
  running_sums c (e ∷ es) = f.add c e.traffic_pct ∷ running_sums (f.add c e.traffic_pct) es

  -- How many sums come before the first that is greater than the bucket.
  abbrev pub passed : F → List F → ℕ
  passed b [] = 0
  passed b (c ∷ cs) = let rest = passed b cs in if f.lt b c then 0 else suc rest

  -- A user is assigned to the first experiment at which the running sum of the percentages exceeds
  -- the user's bucket, and to none if no sum does.
  pub assign-passed :
      (bucket : ℕ) (c : F) (es : List (Experiment F))
      → assign bucket c es ≡ get_elem? es (passed (f.decimal (pos bucket) 0) (running_sums c es))
  unfolding assign
  assign-passed bucket c [] = refl
  assign-passed bucket c (e ∷ es) =
      elim (Bool-cases (f.lt (f.decimal (pos bucket) 0) (f.add c e.traffic_pct))) [
        | inl h ↦ rw h
        | inr h ↦ rw h (assign-passed bucket (f.add c e.traffic_pct) es)
      ]

  -- The total of the percentages.
  abbrev pub total : F → List (Experiment F) → F
  total c [] = c
  total c (e ∷ es) = total (f.add c e.traffic_pct) es

  assign_covers :
      (bucket : ℕ) (c : F) (e : Experiment F) (es : List (Experiment F))
      → f.lt (f.decimal (pos bucket) 0) (total c (e ∷ es)) ≡ true
      → (x : Experiment F) × (assign bucket c (e ∷ es) ≡ some x)
  unfolding assign
  assign_covers bucket c e [] h = (e, rw h)
  assign_covers bucket c e (d ∷ es) h =
      elim (Bool-cases (f.lt (f.decimal (pos bucket) 0) (f.add c e.traffic_pct))) [
        | inl k ↦ (e, rw k)
        | inr k ↦
            let (x, there) = assign_covers bucket (f.add c e.traffic_pct) d es h in (x, rw k there)
      ]

  -- If the running sum of all percentages is greater than each of the numbers below a hundred,
  -- every user is in an experiment.
  pub everyone_assigned :
      (e : Experiment F) (es : List (Experiment F)) (user : Text)
      → ((b : ℕ)
          → b < 100
          → f.lt (f.decimal (pos b) 0) (total (f.decimal (pos 0) 0) (e ∷ es)) ≡ true)
      → (x : Experiment F) × (assign (hash_bucket user) (f.decimal (pos 0) 0) (e ∷ es) ≡ some x)
  everyone_assigned e es user covered =
      assign_covers (hash_bucket user) (f.decimal (pos 0) 0) e es
        (covered (hash_bucket user) (hash_bucket_bound user))
