-- ===== src/Common/Actions.antt =====
-- Actions in sequence: a chain of Go calls that each return early on an error.
use mathlib.Core.Path.{◌≡◌, refl, sym, subst}
use mathlib.Core.Bool.{Bool, true, false}
use native.Mathlib.Omega.{arith}
use recsys_pipeline.Common.Results.{Error, Result, ok, err, panic, Ensures, Action}

-- Go on with the value of a call; an error or a panic ends the caller too.
abbrev pub and_then : {σ A B : Type 0} → Result A × σ → (A → Action σ B) → Result B × σ
and_then (ok a, s) f = f a s
and_then (err e, s) f = (err e, s)
and_then (panic, s) f = (panic, s)

infixl 5 ◌>>=◌
abbrev pub ◌>>=◌ : {σ A B : Type 0} → Action σ A → (A → Action σ B) → Action σ B
◌>>=◌ m f s = and_then (m s) f

abbrev pub pure : {σ A : Type 0} → A → Action σ A
pure a s = (ok a, s)

abbrev pub fail : {σ A : Type 0} → Error → Action σ A
fail e s = (err e, s)

-- A call without side effects.
abbrev pub of_result : {σ A : Type 0} → Result A → Action σ A
of_result r s = (r, s)

-- The error of a call as a value, for a caller that handles it.
abbrev pub caught : {A : Type 0} → Result A → Result (Result A)
caught (ok a) = ok (ok a)
caught (err e) = ok (err e)
caught panic = panic

abbrev pub attempt : {σ A : Type 0} → Action σ A → Action σ (Result A)
attempt m s = (caught (m s).0, (m s).1)

-- `if b { return x } else { return y }`, where only the chosen action runs.
abbrev pub when : {σ A : Type 0} → Bool → Action σ A → Action σ A → Action σ A
when true x y = x
when false x y = y

-- The property holds of what the action returns from the state `s`, and the action does not panic.
abbrev pub Runs : {σ A : Type 0} → (A → Type 0) → Action σ A → σ → Type 0
Runs P m s = Ensures P (m s).0

-- The action does not panic.
abbrev pub Safe : {σ A : Type 0} → Action σ A → σ → Type 0
Safe m s = Runs (λ _. Unit {0}) m s

module _ {σ A B : Type 0} where
  and_then-Ensures :
      (P : A → Type 0) (Q : B → Type 0) (r : Result A × σ) (f : A → Action σ B)
      → Ensures P r.0
      → ((a : A) (t : σ) → r.0 ≡ ok a → P a → Runs Q (f a) t)
      → Ensures Q (and_then r f).0
  and_then-Ensures P Q (ok a, s) f h k = k a s refl h
  and_then-Ensures P Q (err e, s) f h k = tt
  and_then-Ensures P Q (panic, s) f h k = h

  pub >>=-Runs :
      (P : A → Type 0) (Q : B → Type 0) (m : Action σ A) (f : A → Action σ B) (s : σ)
      → Runs P m s
      → ((a : A) (t : σ) → P a → Runs Q (f a) t)
      → Runs Q (m >>= f) s
  >>=-Runs P Q m f s h k = and_then-Ensures P Q (m s) f h (λ a t _. k a t)

  pub >>=-Safe :
      (m : Action σ A) (f : A → Action σ B) (s : σ)
      → Safe m s
      → ((a : A) (t : σ) → Safe (f a) t)
      → Safe (m >>= f) s
  >>=-Safe m f s h k = >>=-Runs (λ _. Unit {0}) (λ _. Unit {0}) m f s h λ a t _. k a t

  pub >>=-err :
      (m : Action σ A) (f : A → Action σ B) (s : σ) {e : Error}
      → (m s).0 ≡ err e
      → ((m >>= f) s).0 ≡ err e
  >>=-err m f s h = ground arith

-- The property holds of the value, if the call returns one with a nil error.
abbrev pub WhenOk : {A : Type 0} → (A → Type 0) → Result A → Type 0
WhenOk P (ok a) = P a
WhenOk P (err e) = Unit
WhenOk P panic = Unit

-- The same of what an action returns from the state `s`.
abbrev pub Yields : {σ A : Type 0} → (A → Type 0) → Action σ A → σ → Type 0
Yields P m s = WhenOk P (m s).0

module _ {σ A B : Type 0} where
  and_then-WhenOk :
      (Q : B → Type 0) (r : Result A × σ) (f : A → Action σ B)
      → ((a : A) (t : σ) → r ≡ (ok a, t) → Yields Q (f a) t)
      → WhenOk Q (and_then r f).0
  and_then-WhenOk Q (ok a, s) f k = k a s refl
  and_then-WhenOk Q (err e, s) f k = tt
  and_then-WhenOk Q (panic, s) f k = tt

  pub >>=-Yields :
      (Q : B → Type 0) (m : Action σ A) (f : A → Action σ B) (s : σ)
      → ((a : A) (t : σ) → m s ≡ (ok a, t) → Yields Q (f a) t)
      → Yields Q (m >>= f) s
  >>=-Yields Q m f s k = and_then-WhenOk Q (m s) f k

  and_then-ok :
      (r : Result A × σ) (f : A → Action σ B) (a : A) {x : Result B}
      → r.0 ≡ ok a
      → ((t : σ) → (f a t).0 ≡ x)
      → (and_then r f).0 ≡ x
  and_then-ok (ok b, s) f a {x} e k =
      let same : b ≡ a = cc in subst (λ c. (f c s).0 ≡ x) (sym same) (k s)
  and_then-ok (err z, s) f a e k = cc
  and_then-ok (panic, s) f a e k = cc

  -- The result of a chain whose first call returns `a`.
  pub >>=-ok :
      (m : Action σ A) (f : A → Action σ B) (s : σ) (a : A) {x : Result B}
      → (m s).0 ≡ ok a
      → ((t : σ) → (f a t).0 ≡ x)
      → ((m >>= f) s).0 ≡ x
  >>=-ok m f s a e k = and_then-ok (m s) f a e k

  and_then-congr :
      (r : Result A × σ) (f g : A → Action σ B)
      → ((a : A) (t : σ) → r ≡ (ok a, t) → (f a t).0 ≡ (g a t).0)
      → (and_then r f).0 ≡ (and_then r g).0
  and_then-congr (ok a, s) f g k = k a s refl
  and_then-congr (err e, s) f g k = refl
  and_then-congr (panic, s) f g k = refl

  pub >>=-congr :
      (m : Action σ A) (f g : A → Action σ B) (s : σ)
      → ((a : A) (t : σ) → m s ≡ (ok a, t) → (f a t).0 ≡ (g a t).0)
      → ((m >>= f) s).0 ≡ ((m >>= g) s).0
  >>=-congr m f g s k = and_then-congr (m s) f g k

module _ {A : Type 0} where
  pub WhenOk_elim : (P : A → Type 0) (r : Result A) {a : A} → WhenOk P r → r ≡ ok a → P a
  WhenOk_elim P (ok b) h e = subst P (cc) h
  WhenOk_elim P (err x) h e = absurd (cc)
  WhenOk_elim P panic h e = absurd (cc)

  caught-Ensures :
      (P : A → Type 0) (r : Result A) → Ensures P r → Ensures (λ x. Ensures P x) (caught r)
  caught-Ensures P (ok a) h = h
  caught-Ensures P (err e) h = tt
  caught-Ensures P panic h = h

  pub Ensures-mono :
      (P Q : A → Type 0) (r : Result A) → Ensures P r → ((a : A) → P a → Q a) → Ensures Q r
  Ensures-mono P Q (ok a) h k = k a h
  Ensures-mono P Q (err e) h k = tt
  Ensures-mono P Q panic h k = h

module _ {σ A : Type 0} where
  pub attempt-Runs :
      (P : A → Type 0) (m : Action σ A) (s : σ) → Runs P m s → Runs (λ x. Ensures P x) (attempt m) s
  attempt-Runs P m s h = caught-Ensures P (m s).0 h

  pub when-Runs :
      (P : A → Type 0) (b : Bool) (x y : Action σ A) (s : σ)
      → (b ≡ true → Runs P x s)
      → (b ≡ false → Runs P y s)
      → Runs P (when b x y) s
  when-Runs P true x y s hx hy = hx refl
  when-Runs P false x y s hx hy = hy refl

  pub when-Yields :
      (P : A → Type 0) (b : Bool) (x y : Action σ A) (s : σ)
      → (b ≡ true → Yields P x s)
      → (b ≡ false → Yields P y s)
      → Yields P (when b x y) s
  when-Yields P true x y s hx hy = hx refl
  when-Yields P false x y s hx hy = hy refl
