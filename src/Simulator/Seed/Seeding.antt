-- ===== src/Simulator/Seed/Seeding.antt =====
-- The seeding, in its three phases.
use recsys_pipeline.Common.{
  ℕ, suc, ◌+◌, ◌≡◌, ◌≢◌, refl, sym, ap, subst, ◌∙◌, List, [], ◌∷◌, ◌++◌, append_assoc, map, length,
  take, All, Distinct, arith, Gives, >>=-Gives, Gives-mono, within-Gives, within, of_result,
}
use recsys_pipeline.Common.Float.{Float}
use recsys_pipeline.Common.Text.{Text, text}
use recsys_pipeline.Keys.{rec_top_k}
use recsys_pipeline.Simulator.{Item, User}
use recsys_pipeline.Simulator.Seed.{
  Command, Client, Recommendation, flush, popular_key, capped, popular_from, build_category_index,
  generate_user_recs, user_command, user_batches, seed_user_recommendations, seed_popular_items,
  seed_stock_mappings, seed_dragonfly,
}
use recsys_pipeline.Simulator.Seed.Writes.{
  View, update, written, written-append, IsWorking, flush-Gives,
}
use recsys_pipeline.Simulator.Seed.Mapped.{stock_commands, seed_stock_mappings-Gives}
use recsys_pipeline.Simulator.Seed.Picks.{ArePicks, generate_user_recs-ArePicks}
use recsys_pipeline.Simulator.Seed.Serving.{IsServing, AreCommands}
use recsys_pipeline.Simulator.Seed.Seeded.{
  IsSeeded, next_command, popular_command, written-IsSeeded,
}

module _ {σ F : Type 0} ⦃f : Float F⦄ (client : Client σ F) (view : σ → View)
    (w : IsWorking client view) where
  marshal-Gives :
      (P : Text → σ → Type 0) (message : Text) (recs : List (Recommendation F)) (s : σ)
      → P (w.encoding recs) s
      → Gives P (within message (of_result (client.marshal recs)) s)
  marshal-Gives P message recs s h = rw (w.marshal_ok recs) h

  user_command-Gives :
      (user : User) (items : List Item) (s : σ)
      → Distinct user.category_prefs
      → Gives
          (λ c t.
            ((c.key ≡ rec_top_k user.id) × IsServing w.encoding items user c.value)
            × (view t ≡ view s))
          (user_command client user (build_category_index items) s)
  unfolding user_command rec_top_k
  user_command-Gives user items s d =
      let Q = λ (c : Command) (t : σ).
        ((c.key ≡ rec_top_k user.id) × IsServing w.encoding items user c.value)
        × (view t ≡ view s) in
      >>=-Gives (λ recs t. ArePicks user.category_prefs items recs × (view t ≡ view s)) Q
        (generate_user_recs client user (build_category_index items)) _ s
        (generate_user_recs-ArePicks client view w user items s d)
        λ recs t h.
          >>=-Gives (λ json u. (json ≡ w.encoding recs) × (u ≡ t)) Q
            (within (text "marshal recs for " ++ (user.id ++ text ": "))
              (of_result (client.marshal recs)))
            _ t
            (marshal-Gives (λ json u. (json ≡ w.encoding recs) × (u ≡ t))
              (text "marshal recs for " ++ (user.id ++ text ": ")) recs t (refl, refl))
            λ json u k. ((refl, (recs, k.0, h.0)), ap view k.1 ∙ h.1)

  user_batches-Gives :
      (items : List Item) (i n : ℕ) (pipe : List Command) (users : List User) (s : σ)
      → i + length users ≡ n
      → (length users ≡ 0 → pipe ≡ [])
      → All (λ u. Distinct u.category_prefs) users
      → Gives
          (λ _ t.
            (cs : List Command) × (view t ≡ written (pipe ++ cs) (view s))
            × AreCommands w.encoding items users cs)
          (user_batches client (build_category_index items) i n pipe users s)
  unfolding user_batches
  user_batches-Gives items i n pipe [] s e last d = rw (last refl) ([], refl, tt)
  user_batches-Gives items i n pipe (x ∷ xs) s e last d =
      let idx = build_category_index items in
      let message = text "exec user rec batch at " in
      let Q = λ (_ : Unit {0}) (t : σ).
        (cs : List Command) × (view t ≡ written (pipe ++ cs) (view s))
        × AreCommands w.encoding items (x ∷ xs) cs in
      >>=-Gives _ Q (user_command client x idx) _ s (user_command-Gives x items s d.0) λ c s1 h.
        >>=-Gives
          (λ left t.
            (written left (view t) ≡ written (pipe ++ c ∷ []) (view s1)) × (suc i ≡ n → left ≡ []))
          Q (flush client message i n (pipe ++ c ∷ []))
          (λ left. user_batches client idx (suc i) n left xs) s1
          (flush-Gives client view w message i n (pipe ++ c ∷ []) s1)
          λ left t k.
            Gives-mono _ Q _
              (user_batches-Gives items (suc i) n left xs t (omega arith) (λ z. k.1 (omega arith))
                d.1)
              λ _ u m. (
                c ∷ m.0,
                m.1
                    ∙ written-append left m.0 (view t)
                    ∙ ap (written m.0) k.0
                    ∙ sym (written-append (pipe ++ c ∷ []) m.0 (view s1))
                    ∙ ap (λ cs. written cs (view s1)) (append_assoc pipe (c ∷ []) m.0)
                    ∙ ap (written (pipe ++ c ∷ m.0)) h.1,
                (h.0, m.2),
              )

  seed_popular_items-Gives :
      (items : List Item) (s : σ)
      → Gives
          (λ _ t.
            view t
            ≡ update (view s) (record {
              key = popular_key;
              value =
                  w.encoding
                    (popular_from (capped (length items)) 0 (take (capped (length items)) items));
              ttl = 0;
            }))
          (seed_popular_items client items s)
  unfolding seed_popular_items
  seed_popular_items-Gives items s =
      rw
        (w.marshal_ok (popular_from (capped (length items)) 0 (take (capped (length items)) items)))
        (w.put-Gives _ s)

  -- Seeding returns without an error. Then every item is in the index of the stock bitmap, with its
  -- place in the catalogue; the next free position is the number of items; the popular items are the
  -- first 100 at most; and every user has recommendations, of those that the user may be given. No
  -- two items and no two users have the same id, no user is called popular or prefers a category
  -- twice.
  pub seed_dragonfly-IsSeeded :
      (users : List User) (items : List Item) (s : σ)
      → Distinct (map (λ x. x.id) items)
      → Distinct (map (λ u. u.id) users)
      → All (λ u. u.id ≢ text "popular") users
      → All (λ u. Distinct u.category_prefs) users
      → Gives
          (λ _ t. IsSeeded w.encoding users items (view t))
          (seed_dragonfly client users items s)
  unfolding seed_dragonfly seed_user_recommendations
  seed_dragonfly-IsSeeded users items s di du named dp =
      let Q = λ (_ : Unit {0}) (t : σ). IsSeeded w.encoding users items (view t) in
      let idx = build_category_index items in
      let P1 = λ (_ : Unit {0}) (t : σ).
        view t ≡ update (written (stock_commands 0 items) (view s)) (next_command items) in
      >>=-Gives P1 Q (within (text "seed stock mappings: ") (seed_stock_mappings client items)) _ s
        (within-Gives P1 (text "seed stock mappings: ") (seed_stock_mappings client items) s
          (seed_stock_mappings-Gives client view w items s))
        λ _ s1 h.
          let P2 = λ (_ : Unit {0}) (t : σ).
            view t ≡ update (view s1) (popular_command w.encoding items) in
          >>=-Gives P2 Q (within (text "seed popular items: ") (seed_popular_items client items)) _
            s1
            (within-Gives P2 (text "seed popular items: ") (seed_popular_items client items) s1
              (seed_popular_items-Gives items s1))
            λ _ s2 k.
              within-Gives Q (text "seed user recommendations: ")
                (seed_user_recommendations client users idx) s2
                (Gives-mono _ Q _
                  (user_batches-Gives items 0 (length users) [] users s2 (omega arith) (λ _. refl)
                    dp)
                  λ _ t m.
                    subst (IsSeeded w.encoding users items)
                      (sym (
                        m.1
                        ∙ ap (written m.0)
                            (k ∙ ap (λ v. update v (popular_command w.encoding items)) h)))
                      (written-IsSeeded w.encoding users items m.0 (view s) di du named m.2))
