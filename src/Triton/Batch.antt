-- ===== src/Triton/Batch.antt =====
-- What a batch of scores is worth, and what is sent for it.
use recsys_pipeline.Common.{
  ℕ, suc, ◌*◌, ◌≡◌, ◌↔◌, refl, Option, none, some, List, [], ◌∷◌, length, length-append, All, err,
  Error, Yields, Ensures, Safe, attempt, >>=-Yields, >>=-Safe, >>=-Runs, attempt-Runs, arith,
  ==_iff, ◌==◌, Bool-cases, inl, inr,
}
use recsys_pipeline.Common.Int.{ℤ}
use recsys_pipeline.Common.Text.{text}
use recsys_pipeline.Triton.Checks.{check-Yields, check_some, check-Safe, wrapped-Safe}
use recsys_pipeline.Triton.{
  InferRequest, BatchItem, InferenceClient, Client, infer_ctx, validate_dimensions, at_item,
  validate_all, flat, batch_request, counted, infer_batch, batch_with, score_batch, wrapped,
  user_embedding_dim, item_embedding_dim, context_feature_dim,
}

-- The three vectors of an item have the dimensions of the model.
pub record Fits {G : Type 0} (b : BatchItem G) : Type 0 where
  pub user : length b.user_embedding ≡ user_embedding_dim
  pub item : length b.item_embedding ≡ item_embedding_dim
  pub context : length b.context_features ≡ context_feature_dim

at_item-none : (i : ℕ) (o r : Option Error) → at_item i o r ≡ none → (o ≡ none) × (r ≡ none)
unfolding at_item
at_item-none i none r h = (refl, h)
at_item-none i (some e) r h = absurd (cc)

module _ {G : Type 0} where
  pub validate_dimensions_iff : (b : BatchItem G) → (validate_dimensions b ≡ none) ↔ Fits b
  unfolding validate_dimensions
  validate_dimensions_iff b = (λ h. ground arith, λ h. ground arith)

  -- Validation of a batch, from any index on, finds no error exactly if every item fits.
  pub validate_all_iff :
      (i : ℕ) (bs : List (BatchItem G)) → (validate_all i bs ≡ none) ↔ All Fits bs
  unfolding validate_all
  validate_all_iff i [] = (λ h. tt, λ h. refl)
  validate_all_iff i (b ∷ bs) = (
    λ h.
        let (this, others) = at_item-none i (validate_dimensions b) (validate_all (suc i) bs) h in
        ((validate_dimensions_iff b).0 this, (validate_all_iff (suc i) bs).0 others),
    λ (fits, h). rw ((validate_dimensions_iff b).1 fits, (validate_all_iff (suc i) bs).1 h),
  )

  length-flat :
      (field : BatchItem G → List G) (d : ℕ) (bs : List (BatchItem G))
      → All (λ b. length (field b) ≡ d) bs
      → length (flat field bs) ≡ length bs * d
  unfolding flat
  length-flat field d [] h = omega arith
  length-flat field d (b ∷ bs) (e, h) =
      grind (arith, length-append (field b) (flat field bs), length-flat field d bs h)

  fields-dims :
      (bs : List (BatchItem G))
      → All Fits bs
      → All (λ b. length b.user_embedding ≡ user_embedding_dim) bs
        × All (λ b. length b.item_embedding ≡ item_embedding_dim) bs
        × All (λ b. length b.context_features ≡ context_feature_dim) bs
  fields-dims [] h = (tt, tt, tt)
  fields-dims (b ∷ bs) (fits, h) =
      let (us, is, cs) = fields-dims bs h in ((fits.user, us), (fits.item, is), (fits.context, cs))

  -- The request for a batch is flat: as many rows of each kind as there are items, each row with
  -- its dimension.
  pub batch_request-lengths :
      (bs : List (BatchItem G))
      → All Fits bs
      → (length (batch_request bs).user_embedding ≡ length bs * 128)
        × (length (batch_request bs).item_embedding ≡ length bs * 128)
        × (length (batch_request bs).context_features ≡ length bs * 32)
  unfolding batch_request
  batch_request-lengths bs h =
      let (us, is, cs) = fields-dims bs h in
      (
        length-flat (λ b. b.user_embedding) 128 bs us,
        length-flat (λ b. b.item_embedding) 128 bs is,
        length-flat (λ b. b.context_features) 32 bs cs,
      )

module _ {σ G : Type 0} where
  counted-length :
      (n : ℕ) (scores : List G) (s : σ) → Yields (λ gs. length gs ≡ n) (counted n scores) s
  unfolding counted
  counted-length n scores s = elim (Bool-cases (length scores == n)) [
    | inl e ↦ rw e ((==_iff (length scores) n).0 e)
    | inr e ↦ rw e tt
  ]

  infer_batch-length :
      (grpc : InferenceClient σ G) (timeout : ℤ) (bs : List (BatchItem G)) (s : σ)
      → Yields (λ gs. length gs ≡ length bs) (infer_batch grpc timeout bs) s
  unfolding infer_batch
  infer_batch-length grpc timeout bs s =
      >>=-Yields (λ gs. length gs ≡ length bs)
        (attempt (grpc.model_infer timeout (batch_request bs))) _ s
        λ answer t _.
          >>=-Yields (λ gs. length gs ≡ length bs)
            (wrapped (text "triton batch inference failed: ") answer)
            (λ resp. counted (length bs) resp.scores) t
            λ resp u _. counted-length (length bs) resp.scores u

  batch_with-length :
      (grpc : Option (InferenceClient σ G)) (timeout : ℤ) (ctx : Option Error)
      (bs : List (BatchItem G)) (s : σ)
      → Yields (λ gs. length gs ≡ length bs) (batch_with grpc timeout ctx bs) s
  unfolding batch_with
  batch_with-length none timeout ctx bs s = tt
  batch_with-length (some grpc) timeout ctx [] s = refl
  batch_with-length (some grpc) timeout ctx (b ∷ bs) s =
      check-Yields (λ gs. length gs ≡ length (b ∷ bs)) [] (validate_all 0 (b ∷ bs)) _ s
        λ _.
          check-Yields (λ gs. length gs ≡ length (b ∷ bs))
            (text "triton batch inference context error: ") (infer_ctx ctx timeout)
            (infer_batch grpc timeout (b ∷ bs)) s λ _. infer_batch-length grpc timeout (b ∷ bs) s

  -- A batch that succeeds has one score for each item, whatever the server answers.
  pub score_batch-length :
      (c : Client σ G) (ctx : Option Error) (bs : List (BatchItem G)) (s : σ)
      → Yields (λ gs. length gs ≡ length bs) (score_batch c ctx bs) s
  unfolding score_batch
  score_batch-length c ctx bs s = batch_with-length c.grpc c.timeout ctx bs s

  batch_with_misfit :
      (grpc : Option (InferenceClient σ G)) (timeout : ℤ) (ctx : Option Error)
      (bs : List (BatchItem G)) (s : σ)
      → ¬ All Fits bs
      → (e : Error) × (batch_with grpc timeout ctx bs s ≡ (err e, s))
  unfolding batch_with
  batch_with_misfit none timeout ctx bs s h = (_, refl)
  batch_with_misfit (some grpc) timeout ctx [] s h = absurd (h tt)
  batch_with_misfit (some grpc) timeout ctx (b ∷ bs) s h =
      check_some [] (validate_all 0 (b ∷ bs)) _ s λ e. h ((validate_all_iff 0 (b ∷ bs)).0 e)

  -- A batch with an item of wrong dimensions anywhere is answered with an error, and the server is
  -- not asked: the world stays as it is.
  pub score_batch_misfit :
      (c : Client σ G) (ctx : Option Error) (bs : List (BatchItem G)) (s : σ)
      → ¬ All Fits bs
      → (e : Error) × (score_batch c ctx bs s ≡ (err e, s))
  unfolding score_batch
  score_batch_misfit c ctx bs s h = batch_with_misfit c.grpc c.timeout ctx bs s h

  -- No call of the server panics.
  abbrev pub ServerRuns : Option (InferenceClient σ G) → Type 0
  ServerRuns none = Unit
  ServerRuns (some grpc) =
      (timeout : ℤ) (req : InferRequest G) (s : σ) → Safe (grpc.model_infer timeout req) s

  counted-Safe : (n : ℕ) (scores : List G) (s : σ) → Safe (counted n scores) s
  unfolding counted
  counted-Safe n scores s = elim (Bool-cases (length scores == n)) [
    | inl e ↦ rw e tt
    | inr e ↦ rw e tt
  ]

  infer_batch-Safe :
      (grpc : InferenceClient σ G) (timeout : ℤ) (bs : List (BatchItem G)) (s : σ)
      → ServerRuns (some grpc)
      → Safe (infer_batch grpc timeout bs) s
  unfolding infer_batch
  infer_batch-Safe grpc timeout bs s runs =
      >>=-Runs (λ x. Ensures (λ _. Unit {0}) x) (λ _. Unit {0})
        (attempt (grpc.model_infer timeout (batch_request bs))) _ s
        (attempt-Runs (λ _. Unit {0}) (grpc.model_infer timeout (batch_request bs)) s
          (runs timeout (batch_request bs) s))
        λ answer t h.
          >>=-Safe (wrapped (text "triton batch inference failed: ") answer)
            (λ resp. counted (length bs) resp.scores) t
            (wrapped-Safe (text "triton batch inference failed: ") answer t h)
            λ resp u. counted-Safe (length bs) resp.scores u

  batch_with-Safe :
      (grpc : Option (InferenceClient σ G)) (timeout : ℤ) (ctx : Option Error)
      (bs : List (BatchItem G)) (s : σ)
      → ServerRuns grpc
      → Safe (batch_with grpc timeout ctx bs) s
  unfolding batch_with
  batch_with-Safe none timeout ctx bs s runs = tt
  batch_with-Safe (some grpc) timeout ctx [] s runs = tt
  batch_with-Safe (some grpc) timeout ctx (b ∷ bs) s runs =
      check-Safe [] (validate_all 0 (b ∷ bs)) _ s (
        check-Safe (text "triton batch inference context error: ") (infer_ctx ctx timeout)
          (infer_batch grpc timeout (b ∷ bs)) s (infer_batch-Safe grpc timeout (b ∷ bs) s runs))

  pub score_batch-Safe :
      (c : Client σ G) (ctx : Option Error) (bs : List (BatchItem G)) (s : σ)
      → ServerRuns c.grpc
      → Safe (score_batch c ctx bs) s
  unfolding score_batch
  score_batch-Safe c ctx bs s runs = batch_with-Safe c.grpc c.timeout ctx bs s runs
