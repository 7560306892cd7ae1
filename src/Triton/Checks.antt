-- ===== src/Triton/Checks.antt =====
-- The client's early returns, as steps of an action.
use recsys_pipeline.Common.{
  ◌≡◌, ◌≢◌, refl, ◌++◌, Option, none, some, Result, ok, err, panic, Error, Action, Yields, Ensures,
  Safe,
}
use recsys_pipeline.Common.Text.{Text}
use recsys_pipeline.Triton.{check, wrapped}

module _ {σ A : Type 0} where
  pub check-Yields :
      (P : A → Type 0) (message : Text) (o : Option Error) (m : Action σ A) (s : σ)
      → (o ≡ none → Yields P m s)
      → Yields P (check message o m) s
  check-Yields P message none m s h = h refl
  check-Yields P message (some e) m s h = tt

  pub check_some :
      (message : Text) (o : Option Error) (m : Action σ A) (s : σ)
      → o ≢ none
      → (e : Error) × (check message o m s ≡ (err e, s))
  check_some message none m s h = absurd (h refl)
  check_some message (some e) m s h = (message ++ e, refl)

  pub check-Safe :
      (message : Text) (o : Option Error) (m : Action σ A) (s : σ)
      → Safe m s
      → Safe (check message o m) s
  check-Safe message none m s h = h
  check-Safe message (some e) m s h = tt

  pub wrapped-Safe :
      (message : Text) (r : Result A) (s : σ)
      → Ensures (λ _. Unit {0}) r
      → Safe (wrapped {σ = σ} message r) s
  wrapped-Safe message (ok a) s h = tt
  wrapped-Safe message (err e) s h = tt
  wrapped-Safe message panic s h = h
