-- ===== src/Triton/Ranker/Outage.antt =====
-- An outage of the server: its failures open the breaker.
use recsys_pipeline.Common.{
  ℕ, suc, ◌+◌, ◌<◌, ◌≡◌, refl, sym, ap, subst, ◌∙◌, true, Option, none, some, List, [], ◌∷◌, ◌++◌,
  length, All, Result, ok, err, panic, Error, Action, arith, attempt, caught, >>=-ok,
}
use recsys_pipeline.Common.Text.{Text, text}
use recsys_pipeline.Common.Int.{ℤ}
use recsys_pipeline.Common.Float.{Float}
use recsys_pipeline.Breaker.{Breaker, opened, allow, step, fails}
use recsys_pipeline.Breaker.Closing.{IsClosed, step-fails, step-threshold, trips_at_threshold}
use recsys_pipeline.Tier.{Recommendation, Recs}
use recsys_pipeline.Triton.{
  BatchItem, InferRequest, InferenceClient, Client, batch_with, score_batch, infer_batch, infer_ctx,
  batch_request, validate_all, check, new_grpc_client,
}
use recsys_pipeline.Triton.Ranker.{Guarded, placeholder, report, call, admit, rank}

check-down :
    {σ A : Type 0} (message : Text) (o : Option Error) (m : Action σ A) (s : σ)
    → (e : Error) × ((m s).0 ≡ err e)
    → (e : Error) × ((check message o m s).0 ≡ err e)
check-down message none m s h = h
check-down message (some e) m s h = (_, refl)

module _ {σ G : Type 0} where
  -- Every call of the server fails.
  abbrev pub IsDown : Option (InferenceClient σ G) → Type 0
  IsDown none = Unit
  IsDown (some grpc) =
      (timeout : ℤ) (req : InferRequest G) (s : σ)
      → (e : Error) × ((grpc.model_infer timeout req s).0 ≡ err e)

  infer_batch-down :
      (grpc : InferenceClient σ G) (timeout : ℤ) (bs : List (BatchItem G)) (s : σ)
      → IsDown (some grpc)
      → (e : Error) × ((infer_batch grpc timeout bs s).0 ≡ err e)
  unfolding infer_batch
  infer_batch-down grpc timeout bs s down =
      let (e, failed) = down timeout (batch_request bs) s in
      (
        text "triton batch inference failed: " ++ e,
        >>=-ok (attempt (grpc.model_infer timeout (batch_request bs))) _ s (err e)
            (ap caught failed) λ t. refl,
      )

  batch_with-down :
      (grpc : Option (InferenceClient σ G)) (timeout : ℤ) (ctx : Option Error) (b : BatchItem G)
      (bs : List (BatchItem G)) (s : σ)
      → IsDown grpc
      → (e : Error) × ((batch_with grpc timeout ctx (b ∷ bs) s).0 ≡ err e)
  unfolding batch_with
  batch_with-down none timeout ctx b bs s down = (_, refl)
  batch_with-down (some grpc) timeout ctx b bs s down =
      check-down [] (validate_all 0 (b ∷ bs)) _ s (
        check-down (text "triton batch inference context error: ") (infer_ctx ctx timeout)
          (infer_batch grpc timeout (b ∷ bs)) s (infer_batch-down grpc timeout (b ∷ bs) s down))

  -- The stub of the repository is down.
  pub stub-IsDown : (addr : Text) → IsDown (some (new_grpc_client addr))
  unfolding new_grpc_client
  stub-IsDown addr timeout req s = (_, refl)

-- A request to rank some items.
abbrev pub Query : Type 0 → Type 0
Query F = Text × Recommendation F × List (Recommendation F)

module _ {σ F G : Type 0} ⦃f : Float F⦄ (widen : G → F) (zero32 : G) (clock : σ → ℕ) where
  -- The rankings of some requests, one after another: their results and the last state.
  abbrev pub ranks : Client σ G → List (Query F) → Guarded σ → List (Result (Recs F)) × Guarded σ
  ranks client [] s = ([], s)
  ranks client ((user, x, xs) ∷ qs) s =
      let (result, s') = rank widen zero32 clock client user (some (x ∷ xs)) s in
      let (results, s'') = ranks client qs s' in (result ∷ results, s'')

  report-down :
      (b : Breaker) (items : List (Recommendation F)) (r : Result (List G) × σ) (e : Error)
      → r.0 ≡ err e
      → (e' : Error) × (t : ℕ) × ((report widen zero32 clock b items r).0 ≡ err e')
        × ((report widen zero32 clock b items r).1.breaker ≡ (step (fails t) b).0)
  unfolding report step
  report-down b items (ok gs, t) e h = absurd (cc)
  report-down b items (err e', t) e h = (_, clock t, refl, refl)
  report-down b items (panic, t) e h = absurd (cc)

  allow-closed : (now n : ℕ) (b : Breaker) → IsClosed n b → allow now b ≡ (b, true)
  unfolding allow
  allow-closed now n b h = ground arith

  rank-down :
      (client : Client σ G) (user : Text) (x : Recommendation F) (xs : List (Recommendation F))
      (s : Guarded σ) (n : ℕ)
      → IsDown client.grpc
      → IsClosed n s.breaker
      → (e : Error) × (t : ℕ) × ((rank widen zero32 clock client user (some (x ∷ xs)) s).0 ≡ err e)
        × ((rank widen zero32 clock client user (some (x ∷ xs)) s).1.breaker
            ≡ (step (fails t) s.breaker).0)
  unfolding rank admit call score_batch
  rank-down client user x xs s n down h = rw (allow-closed (clock s.rest) n s.breaker h) (
      let (e, failed) =
        batch_with-down client.grpc client.timeout none (placeholder zero32) _ s.rest down in
      report-down s.breaker (x ∷ xs) _ e failed)

  abbrev pub AllErr : List (Result (Recs F)) → Type 0
  AllErr rs = All (λ r. (e : Error) × (r ≡ err e)) rs

  outage_from :
      (client : Client σ G) (q : Query F) (qs : List (Query F)) (s : Guarded σ) (n : ℕ)
      → IsDown client.grpc
      → IsClosed n s.breaker
      → n + suc (length qs) ≡ s.breaker.threshold
      → AllErr (ranks client (q ∷ qs) s).0 × ((ranks client (q ∷ qs) s).1.breaker.state ≡ opened)
  outage_from client (user, x, xs) [] s n down h e =
      let (e', t, failed, told) = rank-down client user x xs s n down h in
      (
        ((e', failed), tt),
        ap (λ b. b.state) told ∙ (trips_at_threshold n t s.breaker h (omega arith)).0,
      )
  outage_from client (user, x, xs) (q ∷ qs) s n down h e =
      let (e', t, failed, told) = rank-down client user x xs s n down h in
      let s' = (rank widen zero32 clock client user (some (x ∷ xs)) s).1 in
      let (errs, is_open) =
        outage_from client q qs s' (suc n) down
          (subst (IsClosed (suc n)) (sym told) (step-fails t n s.breaker (omega arith) h))
          (omega (arith, ap (λ b. b.threshold) told, step-threshold (fails t) s.breaker)) in
      (((e', failed), errs), is_open)

  -- While every call of the server fails, a closed breaker without failures is open after as many
  -- rankings, each of at least one item, as its threshold; each of them is answered with an error.
  -- The threshold must be positive and below 2 ^ 63.
  pub outage_opens :
      (client : Client σ G) (qs : List (Query F)) (s : Guarded σ)
      → IsDown client.grpc
      → IsClosed 0 s.breaker
      → 0 < s.breaker.threshold
      → length qs ≡ s.breaker.threshold
      → AllErr (ranks client qs s).0 × ((ranks client qs s).1.breaker.state ≡ opened)
  outage_opens client [] s down h p e = absurd (omega arith)
  outage_opens client (q ∷ qs) s down h p e = outage_from client q qs s 0 down h (omega arith)
