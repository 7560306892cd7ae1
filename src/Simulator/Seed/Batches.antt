-- ===== src/Simulator/Seed/Batches.antt =====
-- The batches of the stock mappings against the commands, a thousand at a time.
use recsys_pipeline.Common.{
  ℕ, zero, suc, ◌+◌, ◌-◌, ◌%◌, ◌<◌, ◌≤◌, ◌≡◌, refl, sym, ap, subst, ◌∙◌, List, [], ◌∷◌, ◌++◌,
  append_assoc, append-nil, length, length-append, take, drop, take_all, Action, ◌>>=◌, and_then,
  and_then-ext, and_then-pure, pure, within, arith, Bool-cases, ◌⊎◌, inl, inr, ◌==◌,
}
use recsys_pipeline.Common.Float.{Float}
use recsys_pipeline.Common.Text.{Text, text}
use recsys_pipeline.Common.Decimal.{itoa}
use recsys_pipeline.Simulator.{Item}
use recsys_pipeline.Simulator.Seed.{
  Command, Client, batch_size, flush, stock_command, stock_batches, seed_stock_mappings,
  next_bit_key,
}
use recsys_pipeline.Simulator.Seed.Mapped.{stock_commands}

-- The list in pieces of a thousand, the last one shorter; enough pieces are allowed for.
abbrev pub thousands {ℓ} : {A : Type ℓ} → ℕ → List A → List (List A)
thousands zero xs = []
thousands (suc fuel) [] = []
thousands (suc fuel) (x ∷ xs) = take batch_size (x ∷ xs) ∷ thousands fuel (drop batch_size (x ∷ xs))

module _ {σ F : Type 0} ⦃f : Float F⦄ (client : Client σ F) where
  -- One pipeline for each piece, until one fails; `i` is the place of the first command.
  abbrev pub write_all : Text → ℕ → List (List Command) → Action σ (Unit {0})
  write_all message i [] = pure tt
  write_all message i (cs ∷ rest) =
      within (message ++ (itoa (i + length cs - 1) ++ text ": ")) (client.exec cs) >>= λ _.
      write_all message (i + length cs) rest

module _ {ℓ} {A : Type ℓ} where
  take-append : (n : ℕ) (xs ys : List A) → length xs ≡ n → take n (xs ++ ys) ≡ xs
  take-append zero [] ys e = refl
  take-append zero (x ∷ xs) ys e = absurd (omega arith)
  take-append (suc n) [] ys e = absurd (omega arith)
  take-append (suc n) (x ∷ xs) ys e = ap (◌∷◌ x) (take-append n xs ys (omega arith))

  drop-append : (n : ℕ) (xs ys : List A) → length xs ≡ n → drop n (xs ++ ys) ≡ ys
  drop-append zero [] ys e = refl
  drop-append zero (x ∷ xs) ys e = absurd (omega arith)
  drop-append (suc n) [] ys e = absurd (omega arith)
  drop-append (suc n) (x ∷ xs) ys e = drop-append n xs ys (omega arith)

  drop_all : (n : ℕ) (xs : List A) → length xs ≤ n → drop n xs ≡ []
  drop_all zero [] h = refl
  drop_all zero (x ∷ xs) h = absurd (omega arith)
  drop_all (suc n) [] h = refl
  drop_all (suc n) (x ∷ xs) h = drop_all n xs (omega arith)

  thousands_nil : (fuel : ℕ) → thousands {A = A} fuel [] ≡ []
  thousands_nil zero = refl
  thousands_nil (suc fuel) = refl

  -- A full piece in front, or a last one.
  thousands_step :
      (fuel : ℕ) (xs ys : List A)
      → 0 < length xs
      → length xs ≤ batch_size
      → (length xs ≡ batch_size) ⊎ (ys ≡ [])
      → thousands (suc fuel) (xs ++ ys) ≡ xs ∷ thousands fuel ys
  thousands_step fuel [] ys some short full = absurd (omega arith)
  thousands_step fuel (x ∷ xs) ys some short (inl full) = λ i.
      take-append batch_size (x ∷ xs) ys full i
      ∷ thousands fuel (drop-append batch_size (x ∷ xs) ys full i)
  thousands_step fuel (x ∷ xs) ys some short (inr last) =
      subst (λ ys. thousands (suc fuel) (x ∷ xs ++ ys) ≡ (x ∷ xs) ∷ thousands fuel ys) (sym last)
        (subst (λ l. thousands (suc fuel) l ≡ (x ∷ xs) ∷ thousands fuel [])
          (sym (append-nil (x ∷ xs)))
          λ i.
            take_all batch_size (x ∷ xs) short i
            ∷ thousands fuel (drop_all batch_size (x ∷ xs) short i))

module _ {σ F : Type 0} ⦃f : Float F⦄ (client : Client σ F) where
  abbrev message : Text
  message = text "exec stock batch at "

  -- The pipeline that ends with the item at index `i`.
  full_batch :
      (fuel start i : ℕ) (pipe cs : List Command) (c : Command) (k : Unit {0} → Action σ (Unit {0}))
      (s : σ)
      → length pipe < batch_size
      → start + length pipe ≡ i
      → (length (pipe ++ c ∷ []) ≡ batch_size) ⊎ (cs ≡ [])
      → ((x : Unit {0}) (t : σ) → k x t ≡ write_all client message (suc i) (thousands fuel cs) t)
      → (within (message ++ (itoa i ++ text ": ")) (client.exec (pipe ++ c ∷ [])) >>= k) s
        ≡ write_all client message start (thousands (suc fuel) (pipe ++ c ∷ cs)) s
  full_batch fuel start i pipe cs c k s short from full rest =
      let size = length-append pipe (c ∷ []) in
      let there : start + length (pipe ++ c ∷ []) - 1 ≡ i = omega (arith, size) in
      let after : start + length (pipe ++ c ∷ []) ≡ suc i = omega (arith, size) in
      let cut : thousands (suc fuel) (pipe ++ c ∷ cs) ≡ (pipe ++ c ∷ []) ∷ thousands fuel cs =
        ap (thousands (suc fuel)) (sym (append_assoc pipe (c ∷ []) cs))
        ∙ thousands_step fuel (pipe ++ c ∷ []) cs (omega (arith, size)) (omega (arith, size))
            full in
      rw (cut, there, after)
        (and_then-ext (within (message ++ (itoa i ++ text ": ")) (client.exec (pipe ++ c ∷ [])) s) k
          (λ _. write_all client message (suc i) (thousands fuel cs)) rest)

  nothing_left :
      (fuel i n : ℕ) (xs : List Item) (t : σ)
      → length xs ≡ 0
      → stock_batches client (suc i) n [] xs t
        ≡ write_all client message (suc i) (thousands fuel (stock_commands (suc i) xs)) t
  unfolding stock_batches
  nothing_left fuel i n [] t e = rw (thousands_nil {A = Command} fuel) refl
  nothing_left fuel i n (x ∷ xs) t e = absurd (omega arith)

  no_commands : (i : ℕ) (xs : List Item) → length xs ≡ 0 → stock_commands i xs ≡ []
  no_commands i [] e = refl
  no_commands i (x ∷ xs) e = absurd (omega arith)

  stock_batches-write_all :
      (fuel start i n : ℕ) (pipe : List Command) (xs : List Item) (s : σ)
      → length pipe < batch_size
      → start + length pipe ≡ i
      → i % batch_size ≡ length pipe
      → i + length xs ≡ n
      → length xs ≤ fuel
      → (length xs ≡ 0 → pipe ≡ [])
      → stock_batches client i n pipe xs s
        ≡ write_all client message start (thousands fuel (pipe ++ stock_commands i xs)) s
  unfolding stock_batches flush
  stock_batches-write_all fuel start i n pipe [] s short from place end enough last =
      rw (last refl, thousands_nil {A = Command} fuel) refl
  stock_batches-write_all zero start i n pipe (x ∷ xs) s short from place end enough last =
      absurd (omega arith)
  stock_batches-write_all (suc fuel) start i n pipe (x ∷ xs) s short from place end enough last =
      let c = stock_command i x in
      let cs = stock_commands (suc i) xs in
      let size = length-append pipe (c ∷ []) in
      let flushed = within (message ++ (itoa i ++ text ": ")) (client.exec (pipe ++ c ∷ [])) in
      let next = λ (left : List Command). stock_batches client (suc i) n left xs in
      elim (Bool-cases (suc i % batch_size == 0)) [
        | inl e ↦ rw e (
            and_then-pure (flushed s) [] next
            ∙ full_batch fuel start i pipe cs c (λ _. next []) s short from
                (inl (ground (arith, size)))
                λ _ t.
                  stock_batches-write_all fuel (suc i) (suc i) n [] xs t (omega arith) (omega arith)
                    (ground arith) (omega arith) (omega arith) (λ _. refl))
        | inr e ↦ elim (Bool-cases (i == n - 1)) [
          | inl l ↦
              rw (e, l)
                (and_then-pure (flushed s) [] next
                  ∙ full_batch fuel start i pipe cs c (λ _. next []) s short from
                      (inr (no_commands (suc i) xs (ground arith)))
                      λ _ t. nothing_left fuel i n xs t (ground arith))
          | inr l ↦
              rw (e, l)
                (stock_batches-write_all (suc fuel) start (suc i) n (pipe ++ c ∷ []) xs s
                    (ground (arith, size)) (omega (arith, size)) (ground (arith, size))
                    (omega arith) (omega arith) (λ z. absurd (ground arith))
                  ∙ ap (λ l. write_all client message start (thousands (suc fuel) l) s)
                      (append_assoc pipe (c ∷ []) cs))
        ]
      ]

  -- The stock mappings are written a thousand at a time and in the order of the catalogue, the last
  -- pipeline with what is left; then the next free position is set. The first failure ends it, with
  -- the index of the last item of the failed pipeline in the error.
  pub seed_stock_mappings-write_all :
      (items : List Item) (s : σ)
      → seed_stock_mappings client items s
        ≡ (write_all client
                (text "exec stock batch at ")
                0
                (thousands (length items) (stock_commands 0 items))
              >>= λ _.
                  client.put (record { key = next_bit_key; value = itoa (length items); ttl = 0 }))
            s
  unfolding seed_stock_mappings
  seed_stock_mappings-write_all items s =
      ap
        (λ r.
          and_then r
            λ _. client.put (record { key = next_bit_key; value = itoa (length items); ttl = 0 }))
        (stock_batches-write_all (length items) 0 0 (length items) [] items s (omega arith)
          (omega arith) (omega arith) (omega arith) (omega arith) (λ _. refl))
