-- ===== src/Simulator/Seed.antt =====
-- services/traffic-simulator/internal/generator/seed.go: the keys that the database is seeded with.
-- The client, the JSON encoder, the order of a map's iteration, and the calls that rand.Shuffle
-- and sort.Slice make are parameters.
pub mod Writes
pub mod Mapped
pub mod Batches
pub mod Categories
pub mod Others
pub mod Picks
pub mod Serving
pub mod Seeded
pub mod Seeding
pub mod Initial
pub mod Served
pub mod Loaded
mod Tests
mod FilledTests
use recsys_pipeline.Common.{
  ℕ, zero, suc, ◌+◌, ◌-◌, ◌*◌, ◌%◌, Bool, true, false, ◌||◌, Option, none, some, List, [], ◌∷◌,
  ◌++◌, map, Result, ok, err, panic, Action, ◌>>=◌, pure, of_result, when, within, length, take,
  get_elem?, set, ltb, leb, ◌==◌, if◌then◌else◌,
}
use recsys_pipeline.Common.Int.{pos}
use recsys_pipeline.Common.Float.{Float}
use recsys_pipeline.Common.Text.{Text, text, same}
use recsys_pipeline.Common.Decimal.{itoa}
use recsys_pipeline.Simulator.{User, Item, total}

pub record Recommendation (F : Type 0) : Type 0 where
  pub item_id : Text
  pub score : F

-- SET, whose value is an integer in decimal or the bytes of a text, with the time to live in
-- nanoseconds, 0 for none.
pub record Command : Type 0 where
  pub key : Text
  pub value : Text
  pub ttl : ℕ

-- A `map[string][]Item`, its entries in the order in which the keys came.
abbrev pub Index : Type 0
Index = List (Text × List Item)

-- A pipeline of SETs and one SET; a `range` over a map; the calls of the function that
-- `rand.Shuffle` is given; `sort.Slice`, and `json.Marshal`.
pub record Client (σ F : Type 0) : Type 0 where
  pub exec : List Command → Action σ (Unit {0})
  pub put : Command → Action σ (Unit {0})
  pub iterate : Index → σ → Index × σ
  pub shuffle : ℕ → σ → List (ℕ × ℕ) × σ
  pub sort_slice :
      (Recommendation F → Recommendation F → Bool)
      → List (Recommendation F)
      → List (Recommendation F)
  pub marshal : List (Recommendation F) → Result Text

abbrev pub batch_size : ℕ
batch_size = 1000

abbrev pub rec_ttl : ℕ
rec_ttl = 7 * 24 * 3600 * 1000000000

abbrev pub top_k_count : ℕ
top_k_count = 100

abbrev pub popular_key : Text
popular_key = text "rec:popular:top_k"

abbrev pub next_bit_key : Text
next_bit_key = text "stock:next_bit_pos"

-- `idx[key] = append(idx[key], item)`
unfoldable pub add_to : Text → Item → Index → Index
add_to key item [] = (key, item ∷ []) ∷ []
add_to key item ((k, items) ∷ idx) =
    let rest = add_to key item idx in
    if same k key then (k, items ++ item ∷ []) ∷ idx else (k, items) ∷ rest

unfoldable pub index_from : Index → List Item → Index
unfolding add_to
index_from idx [] = idx
index_from idx (item ∷ items) = index_from (add_to item.category_id item idx) items

unfoldable pub build_category_index : List Item → Index
unfolding index_from
build_category_index items = index_from [] items

-- `catItems[cat]`, which is nil for a key that is not there.
unfoldable pub items_of : Text → Index → List Item
items_of cat [] = []
items_of cat ((k, items) ∷ idx) = if same k cat then items else items_of cat idx

-- The first loop: what the preferred categories hold, in the order of the preferences.
unfoldable pub preferred : Index → List Text → List Item
unfolding items_of
preferred idx [] = []
preferred idx (cat ∷ cats) = items_of cat idx ++ preferred idx cats

-- Whether a key is in `prefSet`.
unfoldable pub contains : List Text → Text → Bool
contains [] cat = false
contains (p ∷ prefs) cat = same p cat || contains prefs cat

-- The loop over the other categories, which ends when there are enough candidates.
unfoldable pub supplement : List Text → Index → List Item → List Item
unfolding contains
supplement prefs [] candidates = candidates
supplement prefs ((cat, items) ∷ idx) candidates =
    let skipped = supplement prefs idx candidates in
    let enough = candidates ++ items in
    let more = supplement prefs idx enough in
    if contains prefs cat then skipped else if leb top_k_count (length enough) then enough else more

-- `candidates[i], candidates[j] = candidates[j], candidates[i]`
exchanged : {A : Type 0} → ℕ → ℕ → Option A → Option A → List A → Result (List A)
exchanged i j (some a) (some b) xs = ok (set (set xs i b) j a)
exchanged i j none b xs = panic
exchanged i j (some a) none xs = panic

swap : {A : Type 0} → ℕ → ℕ → List A → Result (List A)
unfolding exchanged
swap i j xs = exchanged i j (get_elem? xs i) (get_elem? xs j) xs

unfoldable pub swaps : {σ A : Type 0} → List (ℕ × ℕ) → List A → Action σ (List A)
unfolding swap
swaps [] xs = pure xs
swaps ((i, j) ∷ rest) xs = do swapped ← of_result (swap i j xs); swaps rest swapped

module _ {F : Type 0} ⦃f : Float F⦄ where
  -- `float64(n)`
  abbrev pub float_of : ℕ → F
  float_of n = f.decimal (pos n) 0

  -- The loops that fill `recs`, from index `i`.
  unfoldable pub ranked_from : ℕ → ℕ → List Item → List (Recommendation F)
  ranked_from count i [] = []
  ranked_from count i (item ∷ items) =
      record { item_id = item.id; score = f.div (float_of (count - i)) (float_of count) }
      ∷ ranked_from count (suc i) items

  unfoldable pub popular_from : ℕ → ℕ → List Item → List (Recommendation F)
  popular_from count i [] = []
  popular_from count i (item ∷ items) =
      record { item_id = item.id; score = float_of (count - i) } ∷ popular_from count (suc i) items

  abbrev pub higher : Recommendation F → Recommendation F → Bool
  higher x y = f.lt y.score x.score

-- `count := topKCount; if len(candidates) < count { count = len(candidates) }`
abbrev pub capped : ℕ → ℕ
capped n = if ltb n top_k_count then n else top_k_count

unfoldable pub stock_command : ℕ → Item → Command
stock_command i item = record { key = text "stock:id_map:" ++ item.id; value = itoa i; ttl = 0 }

module _ {σ F : Type 0} ⦃f : Float F⦄ (client : Client σ F) where
  unfoldable pub candidates_of : List Text → Index → Action σ (List Item)
  unfolding preferred supplement
  candidates_of prefs idx =
      when (ltb (length (preferred idx prefs)) top_k_count)
        (do
          entries ← total (client.iterate idx)
          pure (supplement prefs entries (preferred idx prefs)))
        (pure (preferred idx prefs))

  unfoldable pub generate_user_recs : User → Index → Action σ (List (Recommendation F))
  unfolding candidates_of swaps ranked_from
  generate_user_recs user idx = do
    candidates ← candidates_of user.category_prefs idx
    calls ← total (client.shuffle (length candidates))
    shuffled ← swaps calls candidates
    let count = capped (length shuffled)
    pure (client.sort_slice higher (ranked_from count 0 (take count shuffled)))

  -- `pipe.Exec` at the end of a batch, and a new pipeline.
  unfoldable pub flush : Text → ℕ → ℕ → List Command → Action σ (List Command)
  flush message i n pipe =
      when ((suc i % batch_size == 0) || (i == n - 1))
        (do _ ← within (message ++ (itoa i ++ text ": ")) (client.exec pipe); pure []) (pure pipe)

  -- The loop of `seedStockMappings`, from index `i`.
  unfoldable pub stock_batches : ℕ → ℕ → List Command → List Item → Action σ (Unit {0})
  unfolding flush stock_command
  stock_batches i n pipe [] = pure tt
  stock_batches i n pipe (item ∷ items) = do
    left ← flush (text "exec stock batch at ") i n (pipe ++ stock_command i item ∷ [])
    stock_batches (suc i) n left items

  unfoldable pub seed_stock_mappings : List Item → Action σ (Unit {0})
  unfolding stock_batches
  seed_stock_mappings items = do
    _ ← stock_batches 0 (length items) [] items
    client.put (record { key = next_bit_key; value = itoa (length items); ttl = 0 })

  unfoldable pub seed_popular_items : List Item → Action σ (Unit {0})
  unfolding popular_from
  seed_popular_items items = do
    let count = capped (length items)
    json ←
        within (text "marshal popular recs: ")
          (of_result (client.marshal (popular_from count 0 (take count items))))
    client.put (record { key = popular_key; value = json; ttl = 0 })

  -- The command for one user.
  unfoldable pub user_command : User → Index → Action σ Command
  unfolding generate_user_recs
  user_command user idx = do
    recs ← generate_user_recs user idx
    json ←
        within (text "marshal recs for " ++ (user.id ++ text ": "))
          (of_result (client.marshal recs))
    pure (record { key = text "rec:" ++ (user.id ++ text ":top_k"); value = json; ttl = rec_ttl })

  -- The loop of `seedUserRecommendations`, from index `i`.
  unfoldable pub user_batches : Index → ℕ → ℕ → List Command → List User → Action σ (Unit {0})
  unfolding user_command flush
  user_batches idx i n pipe [] = pure tt
  user_batches idx i n pipe (user ∷ users) = do
    c ← user_command user idx
    left ← flush (text "exec user rec batch at ") i n (pipe ++ c ∷ [])
    user_batches idx (suc i) n left users

  unfoldable pub seed_user_recommendations : List User → Index → Action σ (Unit {0})
  unfolding user_batches
  seed_user_recommendations users idx = user_batches idx 0 (length users) [] users

  unfoldable pub seed_dragonfly : List User → List Item → Action σ (Unit {0})
  unfolding build_category_index seed_stock_mappings seed_popular_items seed_user_recommendations
  seed_dragonfly users items = do
    let cat_items = build_category_index items
    _ ← within (text "seed stock mappings: ") (seed_stock_mappings items)
    _ ← within (text "seed popular items: ") (seed_popular_items items)
    within (text "seed user recommendations: ") (seed_user_recommendations users cat_items)
