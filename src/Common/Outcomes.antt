-- ===== src/Common/Outcomes.antt =====
-- Calls that return a value with a nil error, errors behind a message, and equal chains.
use mathlib.Core.Path.{◌≡◌, refl}
use mathlib.Core.List.{◌++◌}
use recsys_pipeline.Common.Text.{Text}
use recsys_pipeline.Common.Results.{Result, ok, err, panic, Action}
use recsys_pipeline.Common.Actions.{and_then, ◌>>=◌, pure}

-- The call returns a value with a nil error, and the property holds of it and of the state.
abbrev pub Gives : {σ A : Type 0} → (A → σ → Type 0) → Result A × σ → Type 0
Gives P (ok a, s) = P a s
Gives P (err e, s) = ⊥
Gives P (panic, s) = ⊥

module _ {σ A B : Type 0} where
  and_then-Gives :
      (P : A → σ → Type 0) (Q : B → σ → Type 0) (r : Result A × σ) (f : A → Action σ B)
      → Gives P r
      → ((a : A) (t : σ) → P a t → Gives Q (f a t))
      → Gives Q (and_then r f)
  and_then-Gives P Q (ok a, s) f h k = k a s h
  and_then-Gives P Q (err e, s) f h k = absurd h
  and_then-Gives P Q (panic, s) f h k = absurd h

  pub >>=-Gives :
      (P : A → σ → Type 0) (Q : B → σ → Type 0) (m : Action σ A) (f : A → Action σ B) (s : σ)
      → Gives P (m s)
      → ((a : A) (t : σ) → P a t → Gives Q (f a t))
      → Gives Q ((m >>= f) s)
  >>=-Gives P Q m f s h k = and_then-Gives P Q (m s) f h k

pub Gives-mono :
    {σ A : Type 0} (P Q : A → σ → Type 0) (r : Result A × σ)
    → Gives P r
    → ((a : A) (t : σ) → P a t → Q a t)
    → Gives Q r
Gives-mono P Q (ok a, s) h k = k a s h
Gives-mono P Q (err e, s) h k = h
Gives-mono P Q (panic, s) h k = h

-- The error of a call behind a message: `fmt.Errorf("...: %w", err)`.
abbrev pub prefixed : {σ A : Type 0} → Text → Result A × σ → Result A × σ
prefixed message (ok a, s) = (ok a, s)
prefixed message (err e, s) = (err (message ++ e), s)
prefixed message (panic, s) = (panic, s)

abbrev pub within : {σ A : Type 0} → Text → Action σ A → Action σ A
within message m s = prefixed message (m s)

prefixed-Gives :
    {σ A : Type 0} (P : A → σ → Type 0) (message : Text) (r : Result A × σ)
    → Gives P r
    → Gives P (prefixed message r)
prefixed-Gives P message (ok a, s) h = h
prefixed-Gives P message (err e, s) h = h
prefixed-Gives P message (panic, s) h = h

pub within-Gives :
    {σ A : Type 0} (P : A → σ → Type 0) (message : Text) (m : Action σ A) (s : σ)
    → Gives P (m s)
    → Gives P (within message m s)
within-Gives P message m s h = prefixed-Gives P message (m s) h

pub Gives-elim :
    {σ A : Type 0} (P : A → σ → Type 0) (r : Result A × σ)
    → Gives P r
    → (a : A) × (r.0 ≡ ok a) × P a r.1
Gives-elim P (ok a, s) h = (a, refl, h)
Gives-elim P (err e, s) h = absurd h
Gives-elim P (panic, s) h = absurd h

module _ {σ A B : Type 0} where
  pub and_then-ext :
      (r : Result A × σ) (f g : A → Action σ B)
      → ((a : A) (t : σ) → f a t ≡ g a t)
      → and_then r f ≡ and_then r g
  and_then-ext (ok a, s) f g h = h a s
  and_then-ext (err e, s) f g h = refl
  and_then-ext (panic, s) f g h = refl

  pub and_then-pure :
      {C : Type 0} (r : Result C × σ) (a : A) (f : A → Action σ B)
      → and_then (and_then r (λ _. pure a)) f ≡ and_then r (λ _. f a)
  and_then-pure (ok c, s) a f = refl
  and_then-pure (err e, s) a f = refl
  and_then-pure (panic, s) a f = refl
