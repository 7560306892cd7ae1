-- ===== src/Simulator/Seed/Others.antt =====
-- The categories that are not preferred, in whatever order they are visited.
use mathlib.Core.List.{Perm, Permᴰ, Perm-prop}
use mathlib.Core.Logic.{∥∥₁_elim}
use mathlib.Core.List.Perm
use recsys_pipeline.Common.{
  ◌≤◌, ◌≡◌, refl, ap, subst, ◌∙◌, List, [], ◌∷◌, ◌++◌, append_assoc, length, arith, if◌then◌else◌,
  Bool-cases, ◌⊎◌, inl, inr, leb,
}
use recsys_pipeline.Common.Text.{Text}
use recsys_pipeline.Simulator.{Item}
use recsys_pipeline.Simulator.Seed.{Index, contains, supplement, top_k_count}
use recsys_pipeline.Simulator.Seed.Categories.{rest_of, exchange}

-- What one entry adds to the rest.
abbrev part : List Text → Text × List Item → List Item
part prefs e = if contains prefs e.0 then [] else e.1

rest_of-part :
    (prefs : List Text) (e : Text × List Item) (idx : Index)
    → part prefs e ++ rest_of prefs idx ≡ rest_of prefs (e ∷ idx)
rest_of-part prefs e idx = elim (Bool-cases (contains prefs e.0)) [
  | inl h ↦ rw h refl
  | inr h ↦ rw h refl
]

two_parts :
    (prefs : List Text) (a b : Text × List Item) (idx : Index)
    → part prefs a ++ (part prefs b ++ rest_of prefs idx) ≡ rest_of prefs (a ∷ b ∷ idx)
two_parts prefs a b idx =
    ap (λ l. part prefs a ++ l) (rest_of-part prefs b idx) ∙ rest_of-part prefs a (b ∷ idx)

swapped :
    (prefs : List Text) (a b : Text × List Item) (idx : Index)
    → Perm (rest_of prefs (a ∷ b ∷ idx)) (rest_of prefs (b ∷ a ∷ idx))
swapped prefs a b idx =
    subst (λ l. Perm l (rest_of prefs (b ∷ a ∷ idx))) (two_parts prefs a b idx)
      (subst (Perm (part prefs a ++ (part prefs b ++ rest_of prefs idx))) (two_parts prefs b a idx)
        (exchange (part prefs a) (part prefs b) (rest_of prefs idx)))

-- The rest, whatever the order in which the entries are visited.
rest_of-permᴰ :
    (prefs : List Text) {e f : Index} → Permᴰ e f → Perm (rest_of prefs e) (rest_of prefs f)
rest_of-permᴰ prefs Permᴰ.nil = Perm.refl []
rest_of-permᴰ prefs (Permᴰ.cons {a = a} {b = b} {l₁ = e} {l₂ = f} q p) =
    subst (λ b. Perm (rest_of prefs (a ∷ e)) (rest_of prefs (b ∷ f))) q
      (subst (λ l. Perm l (rest_of prefs (a ∷ f))) (rest_of-part prefs a e)
        (subst (Perm (part prefs a ++ rest_of prefs e)) (rest_of-part prefs a f)
          (Perm.append_left (part prefs a) (rest_of-permᴰ prefs p))))
rest_of-permᴰ prefs (Permᴰ.swap {a = a} {b = b} {a' = a'} {l = l} q r) =
    subst (λ b'. Perm (rest_of prefs (a ∷ b ∷ l)) (rest_of prefs (a' ∷ b' ∷ l))) q
      (subst (λ a'. Perm (rest_of prefs (a ∷ b ∷ l)) (rest_of prefs (a' ∷ a ∷ l))) r
        (swapped prefs a b l))
rest_of-permᴰ prefs (Permᴰ.trans p q) = Perm.trans (rest_of-permᴰ prefs p) (rest_of-permᴰ prefs q)

pub rest_of-perm :
    (prefs : List Text) (e f : Index) → Perm e f → Perm (rest_of prefs e) (rest_of prefs f)
rest_of-perm prefs e f p = ∥∥₁_elim p Perm-prop (λ d. rest_of-permᴰ prefs d)

-- The loop over the other categories adds what they hold, in the order in which they come, until
-- there are enough candidates.
pub supplement_split :
    (prefs : List Text) (idx : Index) (candidates : List Item)
    → (left : List Item) × (supplement prefs idx candidates ++ left
        ≡ candidates ++ rest_of prefs idx)
      × ((top_k_count ≤ length (supplement prefs idx candidates)) ⊎ (left ≡ []))
unfolding supplement
supplement_split prefs [] candidates = ([], refl, inr refl)
supplement_split prefs ((k, items) ∷ idx) candidates = elim (Bool-cases (contains prefs k)) [
  | inl e ↦ rw e (supplement_split prefs idx candidates)
  | inr e ↦ elim (Bool-cases (leb top_k_count (length (candidates ++ items)))) [
    | inl m ↦
        rw (e, m)
          (rest_of prefs idx, append_assoc candidates items (rest_of prefs idx), inl (ground arith))
    | inr m ↦
        rw (e, m)
          (let ih = supplement_split prefs idx (candidates ++ items) in
            (ih.0, ih.1 ∙ append_assoc candidates items (rest_of prefs idx), ih.2))
  ]
]
