-- ===== src/Simulator/Seed/Picks.antt =====
-- What a user is recommended.
use mathlib.Core.List.{Perm, map-append}
use mathlib.Core.List.Perm
use recsys_pipeline.Common.{
  ℕ, suc, ◌≤◌, ◌<◌, ◌≡◌, ◌⊎◌, refl, sym, ap, subst, ◌∙◌, List, [], ◌∷◌, ◌++◌, append_assoc,
  append-nil, map, length, take, drop, length-take, length-append, length-map, min, All, Distinct,
  arith, Bool-cases, inl, inr, ltb, Gives, >>=-Gives, Gives-mono, set,
}
use recsys_pipeline.Common.Permuted.{length-perm, get_elem?-lt, swap-perm, take-drop}
use recsys_pipeline.Common.Float.{Float}
use recsys_pipeline.Common.Text.{Text}
use recsys_pipeline.Simulator.{Item, User}
use recsys_pipeline.Simulator.Seed.{
  Index, Client, Recommendation, build_category_index, preferred, supplement, top_k_count, swaps,
  ranked_from, capped, candidates_of, generate_user_recs, higher,
}
use recsys_pipeline.Simulator.Seed.Categories.{
  all_of, rest_of, names, build_category_index-perm, build_category_index-Distinct, preferred-perm,
}
use recsys_pipeline.Simulator.Seed.Others.{rest_of-perm, supplement_split}
use recsys_pipeline.Simulator.Seed.Writes.{View, IsWorking}

-- A part of the list, in any order.
abbrev pub IsPartOf {ℓ} : {A : Type ℓ} → List A → List A → Type ℓ
IsPartOf xs ys = (left : List _) × Perm (xs ++ left) ys

abbrev pub ids : List Item → List Text
ids items = map (λ x. x.id) items

abbrev pub picked : {F : Type 0} → List (Recommendation F) → List Text
picked recs = map (λ x. x.item_id) recs

-- The candidates: what is preferred, if that is enough, and else the preferred and others, until
-- there are enough or all are candidates.
abbrev pub AreCandidates : List Text → Index → List Item → Type 0
AreCandidates prefs idx cs =
    IsPartOf cs (all_of idx)
    × ((top_k_count ≤ length cs) ⊎ (length cs ≡ length (all_of idx)))
    × ((cs ≡ preferred idx prefs) ⊎ (length (preferred idx prefs) < top_k_count))

enough_or_all :
    (cs left whole : List Item)
    → Perm (cs ++ left) whole
    → ((top_k_count ≤ length cs) ⊎ (left ≡ []))
    → ((top_k_count ≤ length cs) ⊎ (length cs ≡ length whole))
enough_or_all cs left whole p (inl h) = inl h
enough_or_all cs left whole p (inr e) =
    inr (
      ap length (sym (append-nil cs) ∙ ap (λ l. cs ++ l) (sym e))
      ∙ length-perm (cs ++ left) whole p)

swaps-Gives :
    {σ A : Type 0} (calls : List (ℕ × ℕ)) (xs : List A) (n : ℕ) (s : σ)
    → All (λ c. (c.0 < n) × (c.1 < n)) calls
    → length xs ≡ n
    → Gives (λ ys t. Perm ys xs × (t ≡ s)) (swaps calls xs s)
unfolding swaps
swaps-Gives [] xs n s h e = (Perm.refl xs, refl)
swaps-Gives ((i, j) ∷ calls) xs n s h e =
    let at_i = get_elem?-lt xs i (omega arith) in
    let at_j = get_elem?-lt xs j (omega arith) in
    let one : Perm (set (set xs i at_j.0) j at_i.0) xs =
      swap-perm xs i j at_i.0 at_j.0 at_i.1 at_j.1 in
    rw (at_i.1, at_j.1)
      (Gives-mono (λ ys t. Perm ys (set (set xs i at_j.0) j at_i.0) × (t ≡ s))
        (λ ys t. Perm ys xs × (t ≡ s)) _
        (swaps-Gives calls (set (set xs i at_j.0) j at_i.0) n s h.1 (length-perm _ xs one ∙ e))
        λ ys t k. (Perm.trans k.0 one, k.1))

picked-ranked_from :
    (F : Type 0) ⦃f : Float F⦄ (count i : ℕ) (xs : List Item)
    → picked {F = F} (ranked_from count i xs) ≡ ids xs
unfolding ranked_from
picked-ranked_from F count i [] = refl
picked-ranked_from F count i (x ∷ xs) = ap (◌∷◌ x.id) (picked-ranked_from F count (suc i) xs)

-- The first entries of a rearrangement, under another order.
IsPartOf-ranked :
    {F : Type 0} (recs recs' : List (Recommendation F)) (n : ℕ)
    (shuffled candidates whole : List Item)
    → Perm recs recs'
    → picked recs' ≡ ids (take n shuffled)
    → Perm shuffled candidates
    → IsPartOf candidates whole
    → IsPartOf (picked recs) (ids whole)
IsPartOf-ranked recs recs' n shuffled candidates whole p e q part =
    let all : Perm (shuffled ++ part.0) whole = Perm.trans (Perm.append_right part.0 q) part.1 in
    let first : Perm (picked recs) (ids (take n shuffled)) =
      subst (Perm (picked recs)) e (Perm.map (λ x. x.item_id) p) in
    let split : ids (take n shuffled) ++ ids (drop n shuffled ++ part.0)
        ≡ ids (shuffled ++ part.0) =
      sym (map-append (λ x. x.id) (take n shuffled) (drop n shuffled ++ part.0))
      ∙ ap ids (
          sym (append_assoc (take n shuffled) (drop n shuffled) part.0)
          ∙ ap (λ l. l ++ part.0) (take-drop n shuffled)) in
    (
      ids (drop n shuffled ++ part.0),
      Perm.trans (Perm.append_right (ids (drop n shuffled ++ part.0)) first)
          (subst (λ l. Perm l (ids whole)) (sym split) (Perm.map (λ x. x.id) all)),
    )

-- As many recommendations as there are items, up to 100, each of another item; and, if the
-- preferred categories have 100 items, of these only.
pub record ArePicks {F : Type 0} (prefs : List Text) (items : List Item)
    (recs : List (Recommendation F)) : Type 0 where
  pub counted : length recs ≡ min top_k_count (length items)
  pub from_catalogue : IsPartOf (picked recs) (ids items)
  pub from_preferred :
      IsPartOf (picked recs) (ids (preferred (build_category_index items) prefs))
      ⊎ (length (preferred (build_category_index items) prefs) < top_k_count)

module _ {σ F : Type 0} ⦃f : Float F⦄ (client : Client σ F) (view : σ → View)
    (w : IsWorking client view) where
  candidates_of-Gives :
      (prefs : List Text) (idx : Index) (s : σ)
      → Distinct prefs
      → Distinct (names idx)
      → Gives
          (λ cs t. AreCandidates prefs idx cs × (view t ≡ view s))
          (candidates_of client prefs idx s)
  unfolding candidates_of
  candidates_of-Gives prefs idx s dp d =
      elim (Bool-cases (ltb (length (preferred idx prefs)) top_k_count)) [
        | inl e ↦ rw e (
          let entries = client.iterate idx s in
              let split = supplement_split prefs entries.0 (preferred idx prefs) in
              let whole : Perm (supplement prefs entries.0 (preferred idx prefs) ++ split.0)
                  (all_of idx) =
                subst (λ l. Perm l (all_of idx)) (sym split.1)
                  (Perm.trans
                    (Perm.append_left (preferred idx prefs)
                      (rest_of-perm prefs entries.0 idx (w.iterate-perm idx s)))
                    (preferred-perm prefs idx dp d)) in
              (
                (split.0, whole),
                enough_or_all _ split.0 (all_of idx) whole split.2,
                inr (ground arith),
              ),
          w.iterate_keeps idx s,
        )
        | inr e ↦ rw e (
          ((rest_of prefs idx, preferred-perm prefs idx dp d), inl (ground arith), inl refl),
          refl,
        )
      ]

  ranked-ArePicks :
      (prefs : List Text) (items shuffled candidates : List Item)
      → AreCandidates prefs (build_category_index items) candidates
      → Perm shuffled candidates
      → ArePicks prefs items (
          client.sort_slice higher
            (ranked_from (capped (length shuffled)) 0 (take (capped (length shuffled)) shuffled)))
  ranked-ArePicks prefs items shuffled candidates c q =
      let n = capped (length shuffled) in
      let recs' = ranked_from {F = F} n 0 (take n shuffled) in
      let recs = client.sort_slice higher recs' in
      let p : Perm recs recs' = w.sort_slice-perm higher recs' in
      let e : picked recs' ≡ ids (take n shuffled) = picked-ranked_from F n 0 (take n shuffled) in
      let whole : Perm (all_of (build_category_index items)) items =
        build_category_index-perm items in
      let size : length recs ≡ length (take n shuffled) =
        length-perm recs recs' p
        ∙ sym (length-map (λ x. x.item_id) recs')
        ∙ ap length e
        ∙ length-map (λ x. x.id) (take n shuffled) in
      record {
        counted = ground (
          arith,
          size,
          length-take n shuffled,
          length-perm shuffled candidates q,
          length-perm _ items whole,
          length-perm _ _ c.0.1,
          length-append candidates c.0.0,
        );
        from_catalogue =
            IsPartOf-ranked recs recs' n shuffled candidates items p e q
              (c.0.0, Perm.trans c.0.1 whole);
        from_preferred = elim c.2 [
          | inl same ↦ inl (
              IsPartOf-ranked recs recs' n shuffled candidates
                (preferred (build_category_index items) prefs) p e q
                (
                  [],
                  subst (λ l. Perm l (preferred (build_category_index items) prefs))
                      (sym (append-nil candidates))
                      (subst (Perm candidates) same (Perm.refl candidates)),
                ))
          | inr few ↦ inr few
        ];
      }

  pub generate_user_recs-ArePicks :
      (user : User) (items : List Item) (s : σ)
      → Distinct user.category_prefs
      → Gives
          (λ recs t. ArePicks user.category_prefs items recs × (view t ≡ view s))
          (generate_user_recs client user (build_category_index items) s)
  unfolding generate_user_recs
  generate_user_recs-ArePicks user items s d =
      let idx = build_category_index items in
      let Q = λ (recs : List (Recommendation F)) (t : σ).
        ArePicks user.category_prefs items recs × (view t ≡ view s) in
      >>=-Gives (λ cs t. AreCandidates user.category_prefs idx cs × (view t ≡ view s)) Q
        (candidates_of client user.category_prefs idx) _ s
        (candidates_of-Gives user.category_prefs idx s d (build_category_index-Distinct items))
        λ cs t h.
          let drawn = client.shuffle (length cs) t in
          >>=-Gives (λ ys u. Perm ys cs × (u ≡ drawn.1)) Q (swaps drawn.0 cs) _ drawn.1
            (swaps-Gives drawn.0 cs (length cs) drawn.1 (w.shuffle_below (length cs) t) refl)
            λ ys u k. (
              ranked-ArePicks user.category_prefs items ys cs h.0 k.0,
              ap view k.1 ∙ w.shuffle_keeps (length cs) t ∙ h.1,
            )
