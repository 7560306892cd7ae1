-- ===== src/Events/Counter.antt =====
-- services/event-collector/internal/counter/counter.go: counts by user and event type, under one
-- key for the two. The map is a list of its entries.
pub mod Exact
use recsys_pipeline.Common.{
  ℕ, zero, suc, ◌+◌, ◌%◌, ◌^◌, ◌<◌, ◌≡◌, ◌↔◌, refl, sym, ap, subst, ◌∙◌, Bool, true, false, List,
  [], ◌∷◌, ◌++◌, arith, if◌then◌else◌, Bool-cases, inl, inr, ◌≢◌,
}
use recsys_pipeline.Common.Text.{Text, text, same, same_iff, same_refl}

-- The `sync.Map`: a key, and its counter of 64 bits.
abbrev pub Counter : Type 0
Counter = List (Text × ℕ)

pub new_counter : Counter
new_counter = []

unfoldable pub key : Text → Text → Text
key user event_type = user ++ (text ":" ++ event_type)

pub count_at : Text → Counter → ℕ
count_at k [] = 0
count_at k ((j, n) ∷ c) = let rest = count_at k c in if same k j then n else rest

pub count_up : Text → Counter → Counter
count_up k [] = (k, 1) ∷ []
count_up k ((j, n) ∷ c) =
    let rest = count_up k c in if same k j then (j, (n + 1) % 2 ^ 64) ∷ c else (j, n) ∷ rest

-- The new value, and the map after it.
unfoldable pub increment : Text → Text → Counter → ℕ × Counter
unfolding key count_at count_up
increment user event_type c =
    let c' = count_up (key user event_type) c in (count_at (key user event_type) c', c')

unfoldable pub get : Text → Text → Counter → ℕ
unfolding key count_at
get user event_type c = count_at (key user event_type) c

count_at-up :
    (k j : Text) (c : Counter)
    → count_at k (count_up j c) ≡ (if same k j then (count_at k c + 1) % 2 ^ 64 else count_at k c)
unfolding count_at count_up
count_at-up k j [] = elim (Bool-cases (same k j)) [ inl e ↦ rw e | inr e ↦ rw e ]
count_at-up k j ((i, n) ∷ c) = elim (Bool-cases (same j i)) [
  | inl e ↦
      let i_is : j ≡ i = (same_iff j i).0 e in
      rw (e, subst (λ x. same k x ≡ same k j) i_is refl)
        (elim (Bool-cases (same k j)) [ inl h ↦ rw h | inr h ↦ rw h ])
  | inr e ↦ rw e (elim (Bool-cases (same k i)) [
    | inl h ↦ rw (h, apart k i j ((same_iff k i).0 h) e)
    | inr h ↦ rw h (count_at-up k j c)
  ])
]
  where
    apart : (k i j : Text) → k ≡ i → same j i ≡ false → same k j ≡ false
    apart k i j h e = ground (arith, same_iff k j, same_iff j i)

-- The counter after some events, each a user and a type.
abbrev pub increments : List (Text × Text) → Counter → Counter
increments [] c = c
increments ((user, event_type) ∷ es) c = increments es (increment user event_type c).1

-- How many of the events fall under the key of this user and type.
abbrev pub under_key : Text → Text → List (Text × Text) → ℕ
under_key user event_type [] = 0
under_key user event_type ((u, t) ∷ es) =
    let rest = under_key user event_type es in
    if same (key user event_type) (key u t) then suc rest else rest

add_one : (n m : ℕ) → ((n + 1) % 2 ^ 64 + m) % 2 ^ 64 ≡ (n + suc m) % 2 ^ 64
add_one n m = omega arith

-- Whatever events come in, in whatever order, the count of a user and a type is the number of
-- those under its key, modulo 2 ^ 64.
pub get-increments :
    (user event_type : Text) (es : List (Text × Text)) (c : Counter)
    → get user event_type (increments es c) % 2 ^ 64
      ≡ (get user event_type c + under_key user event_type es) % 2 ^ 64
unfolding get increment
get-increments user event_type [] c = ap (λ n. n % 2 ^ 64) (plus_zero (get user event_type c))
  where
    plus_zero : (n : ℕ) → n ≡ n + 0
    plus_zero n = omega arith
get-increments user event_type ((u, t) ∷ es) c =
    elim (Bool-cases (same (key user event_type) (key u t))) [
      | inl e ↦
          get-increments user event_type es (count_up (key u t) c)
          ∙ rw (count_at-up (key user event_type) (key u t) c, e)
              (add_one (count_at (key user event_type) c) (under_key user event_type es))
      | inr e ↦
          get-increments user event_type es (count_up (key u t) c)
          ∙ rw (count_at-up (key user event_type) (key u t) c, e) refl
    ]
