-- ===== src/Simulator/Seed/Writes.antt =====
-- What the database holds after the batches: the writes, one after the other.
use mathlib.Core.List.{Perm}
use recsys_pipeline.Common.{
  ℕ, suc, ◌-◌, ◌%◌, ◌<◌, ◌≡◌, ◌≢◌, refl, ap, ◌∙◌, Bool, ◌||◌, Option, some, List, [], ◌∷◌, ◌++◌, ok,
  pure, within, within-Gives, All, ◌==◌, if◌then◌else◌, Gives, >>=-Gives, arith, Bool-cases, inl,
  inr,
}
use recsys_pipeline.Common.Float.{Float}
use recsys_pipeline.Common.Text.{Text, text, same, same→eq, same_refl}
use recsys_pipeline.Common.Decimal.{itoa}
use recsys_pipeline.Simulator.Seed.{Command, Client, Recommendation, Index, flush, batch_size}

abbrev pub View : Type 0
View = Text → Option Text

abbrev pub update : View → Command → View
update v c k = if same c.key k then some c.value else v k

-- The values after the commands, the last one of a key winning.
abbrev pub written : List Command → View → View
written [] v = v
written (c ∷ cs) v = written cs (update v c)

pub written-append :
    (xs ys : List Command) (v : View) → written (xs ++ ys) v ≡ written ys (written xs v)
written-append [] ys v = refl
written-append (x ∷ xs) ys v = written-append xs ys (update v x)

pub written_other :
    (cs : List Command) (v : View) (k : Text) → All (λ c. c.key ≢ k) cs → written cs v k ≡ v k
written_other [] v k h = refl
written_other (c ∷ cs) v k h = elim (Bool-cases (same c.key k)) [
  | inl e ↦ absurd (h.0 (same→eq c.key k e))
  | inr e ↦ written_other cs (update v c) k h.1 ∙ rw e refl
]

pub written_first :
    (c : Command) (cs : List Command) (v : View) (k : Text)
    → c.key ≡ k
    → All (λ c. c.key ≢ k) cs
    → written (c ∷ cs) v k ≡ some c.value
written_first c cs v k e h =
    written_other cs (update v c) k h ∙ rw (ap (λ t. same t k) e ∙ same_refl k) refl

-- A database that takes every write, next to which the generator's other calls change nothing that
-- it holds: as documented, `range` visits each entry of a map once in some order, `rand.Shuffle`
-- swaps positions below its argument, and `sort.Slice` permutes; the encoder has a text for every
-- list.
pub record IsWorking {σ F : Type 0} (client : Client σ F) (view : σ → View) : Type 0 where
  pub exec-Gives :
      (cs : List Command) (s : σ) → Gives (λ _ t. view t ≡ written cs (view s)) (client.exec cs s)
  pub put-Gives : (c : Command) (s : σ) → Gives (λ _ t. view t ≡ update (view s) c) (client.put c s)
  pub iterate_keeps : (idx : Index) (s : σ) → view (client.iterate idx s).1 ≡ view s
  pub iterate-perm : (idx : Index) (s : σ) → Perm (client.iterate idx s).0 idx
  pub shuffle_keeps : (n : ℕ) (s : σ) → view (client.shuffle n s).1 ≡ view s
  pub shuffle_below : (n : ℕ) (s : σ) → All (λ c. (c.0 < n) × (c.1 < n)) (client.shuffle n s).0
  pub sort_slice-perm :
      (before : Recommendation F → Recommendation F → Bool) (xs : List (Recommendation F))
      → Perm (client.sort_slice before xs) xs
  pub encoding : List (Recommendation F) → Text
  pub marshal_ok : (xs : List (Recommendation F)) → client.marshal xs ≡ ok (encoding xs)

module _ {σ F : Type 0} ⦃f : Float F⦄ (client : Client σ F) (view : σ → View)
    (w : IsWorking client view) where
  -- What is not yet written stays in the pipeline, and nothing after the last entry.
  pub flush-Gives :
      (message : Text) (i n : ℕ) (pipe : List Command) (s : σ)
      → Gives
          (λ left t. (written left (view t) ≡ written pipe (view s)) × (suc i ≡ n → left ≡ []))
          (flush client message i n pipe s)
  unfolding flush
  flush-Gives message i n pipe s = elim (Bool-cases ((suc i % batch_size == 0) || (i == n - 1))) [
    | inl e ↦ rw e (
        >>=-Gives (λ _ t. view t ≡ written pipe (view s))
          (λ left t. (written left (view t) ≡ written pipe (view s)) × (suc i ≡ n → left ≡ []))
          (within (message ++ (itoa i ++ text ": ")) (client.exec pipe)) (λ _. pure []) s
          (within-Gives (λ _ t. view t ≡ written pipe (view s)) (message ++ (itoa i ++ text ": "))
            (client.exec pipe) s (w.exec-Gives pipe s))
          λ _ t h. (h, λ _. refl))
    | inr e ↦ rw e (refl, λ last. absurd (ground arith))
  ]
