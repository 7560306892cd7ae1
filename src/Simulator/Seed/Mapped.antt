-- ===== src/Simulator/Seed/Mapped.antt =====
-- The stock mappings: every item of the catalogue under its key, with its place.
use recsys_pipeline.Common.{
  ℕ, suc, ◌+◌, ◌≡◌, ◌≢◌, refl, sym, ap, ◌∙◌, List, [], ◌∷◌, ◌++◌, append_assoc, map, length, All,
  Distinct, Gives, >>=-Gives, Gives-mono, arith, some,
}
use mathlib.Core.List.{append_cancel_left}
use recsys_pipeline.Common.Float.{Float}
use recsys_pipeline.Common.Text.{Text, text}
use recsys_pipeline.Common.Decimal.{itoa}
use recsys_pipeline.Keys.{stock_id_map}
use recsys_pipeline.Simulator.{Item}
use recsys_pipeline.Simulator.Seed.{
  Command, Client, flush, stock_command, stock_batches, seed_stock_mappings, next_bit_key,
}
use recsys_pipeline.Simulator.Seed.Writes.{
  View, update, written, written-append, written_first, IsWorking, flush-Gives,
}

-- The commands for the items, from index `i`.
abbrev pub stock_commands : ℕ → List Item → List Command
stock_commands i [] = []
stock_commands i (x ∷ xs) = stock_command i x ∷ stock_commands (suc i) xs

-- Every item is mapped to its place, from index `i`.
abbrev pub AreMapped : View → ℕ → List Item → Type 0
AreMapped v i [] = Unit
AreMapped v i (x ∷ xs) = (v (stock_id_map x.id) ≡ some (itoa i)) × AreMapped v (suc i) xs

other_keys :
    (i : ℕ) (x : Item) (xs : List Item)
    → All (λ y. x.id ≢ y) (map (λ x. x.id) xs)
    → All (λ c. c.key ≢ stock_id_map x.id) (stock_commands i xs)
unfolding stock_command stock_id_map
other_keys i x [] h = tt
other_keys i x (y ∷ ys) h = (
  λ e. h.0 (sym (append_cancel_left (text "stock:id_map:") y.id x.id e)),
  other_keys (suc i) x ys h.1,
)

pub stock_commands-AreMapped :
    (i : ℕ) (xs : List Item) (v : View)
    → Distinct (map (λ x. x.id) xs)
    → AreMapped (written (stock_commands i xs) v) i xs
unfolding stock_id_map stock_command
stock_commands-AreMapped i [] v d = tt
stock_commands-AreMapped i (x ∷ xs) v d = (
  written_first (stock_command i x) (stock_commands (suc i) xs) v (stock_id_map x.id) refl
      (other_keys (suc i) x xs d.0),
  stock_commands-AreMapped (suc i) xs (update v (stock_command i x)) d.1,
)

-- Views that agree on the keys of the index map the same items.
pub AreMapped-agree :
    (v v' : View) (i : ℕ) (xs : List Item)
    → ((id : Text) → v' (stock_id_map id) ≡ v (stock_id_map id))
    → AreMapped v i xs
    → AreMapped v' i xs
AreMapped-agree v v' i [] h m = tt
AreMapped-agree v v' i (x ∷ xs) h m = (h x.id ∙ m.0, AreMapped-agree v v' (suc i) xs h m.1)

module _ {σ F : Type 0} ⦃f : Float F⦄ (client : Client σ F) (view : σ → View)
    (w : IsWorking client view) where
  stock_batches-Gives :
      (i n : ℕ) (pipe : List Command) (xs : List Item) (s : σ)
      → i + length xs ≡ n
      → (length xs ≡ 0 → pipe ≡ [])
      → Gives
          (λ _ t. view t ≡ written (pipe ++ stock_commands i xs) (view s))
          (stock_batches client i n pipe xs s)
  unfolding stock_batches
  stock_batches-Gives i n pipe [] s e last = rw (last refl) refl
  stock_batches-Gives i n pipe (x ∷ xs) s e last =
      let now = pipe ++ stock_command i x ∷ [] in
      >>=-Gives (λ left t. (written left (view t) ≡ written now (view s)) × (suc i ≡ n → left ≡ []))
        (λ _ t. view t ≡ written (pipe ++ stock_commands i (x ∷ xs)) (view s))
        (flush client (text "exec stock batch at ") i n now)
        (λ left. stock_batches client (suc i) n left xs) s
        (flush-Gives client view w (text "exec stock batch at ") i n now s)
        λ left t h.
          Gives-mono (λ _ u. view u ≡ written (left ++ stock_commands (suc i) xs) (view t))
            (λ _ u. view u ≡ written (pipe ++ stock_commands i (x ∷ xs)) (view s)) _
            (stock_batches-Gives (suc i) n left xs t (omega arith) λ z. h.1 (omega arith))
            λ _ u k.
              k
              ∙ written-append left (stock_commands (suc i) xs) (view t)
              ∙ ap (written (stock_commands (suc i) xs)) h.0
              ∙ sym (written-append now (stock_commands (suc i) xs) (view s))
              ∙ ap (λ cs. written cs (view s))
                  (append_assoc pipe (stock_command i x ∷ []) (stock_commands (suc i) xs))

  -- The mappings and, behind them, the next free position.
  pub seed_stock_mappings-Gives :
      (xs : List Item) (s : σ)
      → Gives
          (λ _ t.
            view t
            ≡ update
                (written (stock_commands 0 xs) (view s))
                (record { key = next_bit_key; value = itoa (length xs); ttl = 0 }))
          (seed_stock_mappings client xs s)
  unfolding seed_stock_mappings
  seed_stock_mappings-Gives xs s =
      let last : Command = record { key = next_bit_key; value = itoa (length xs); ttl = 0 } in
      >>=-Gives (λ _ t. view t ≡ written (stock_commands 0 xs) (view s))
        (λ _ t. view t ≡ update (written (stock_commands 0 xs) (view s)) last)
        (stock_batches client 0 (length xs) [] xs) (λ _. client.put last) s
        (stock_batches-Gives 0 (length xs) [] xs s (omega arith) λ _. refl)
        λ _ t h.
          Gives-mono (λ _ u. view u ≡ update (view t) last)
            (λ _ u. view u ≡ update (written (stock_commands 0 xs) (view s)) last) _
            (w.put-Gives last t) λ _ u k. k ∙ ap (λ v. update v last) h
