-- ===== src/Triton/Ranker/Contract.antt =====
-- The ranker keeps what the router asks of a ranker.
use recsys_pipeline.Common.{
  ℕ, ◌≡◌, subst, Bool, true, false, none, some, List, [], ◌∷◌, length, length-replicate, replicate,
  All, Result, ok, err, panic, Ensures, WhenOk, elems,
}
use recsys_pipeline.Common.Text.{Text}
use recsys_pipeline.Common.Float.{Float}
use recsys_pipeline.Breaker.{Breaker, allow}
use recsys_pipeline.Sort.{descending, sort_in_place-All}
use recsys_pipeline.Tier.{Recommendation, Recs}
use recsys_pipeline.Tier.Limits.{AllGood, RankerKeeps}
use recsys_pipeline.Triton.{Client, score_batch}
use recsys_pipeline.Triton.Batch.{ServerRuns, score_batch-length, score_batch-Safe}
use recsys_pipeline.Triton.Ranker.{placeholder, sorted, report, call, admit, rank, protected_ranker}
use recsys_pipeline.Triton.Ranker.Ranking.{paired, with_scores-paired}

module _ {σ F G : Type 0} ⦃f : Float F⦄ (widen : G → F) (zero32 : G) (clock : σ → ℕ)
    (Good : Text → Type 0) where
  paired-All :
      (xs : List (Recommendation F)) (gs : List G)
      → All (λ x. Good x.item_id) xs
      → All (λ x. Good x.item_id) (paired widen xs gs)
  paired-All [] gs h = tt
  paired-All (x ∷ xs) [] h = tt
  paired-All (x ∷ xs) (g ∷ gs) (p, h) = (p, paired-All xs gs h)

  report-Keeps :
      (b : Breaker) (items : List (Recommendation F)) (r : Result (List G) × σ)
      → Ensures (λ _. Unit {0}) r.0
      → WhenOk (λ gs. length gs ≡ length items) r.0
      → All (λ x. Good x.item_id) items
      → Ensures (AllGood Good) (report widen zero32 clock b items r).0
  unfolding report sorted
  report-Keeps b items (ok gs, t) h e k =
      rw (with_scores-paired widen items gs e, sorted)
        (sort_in_place-All (λ x. Good x.item_id) (descending (λ x. x.score)) (paired widen items gs)
          (paired-All items gs k))
  report-Keeps b items (err e, t) h _ k = tt
  report-Keeps b items (panic, t) h _ k = h

  admit-Keeps :
      (client : Client σ G) (items : Recs F) (s : σ) (answer : Breaker × Bool)
      → ServerRuns client.grpc
      → AllGood Good items
      → Ensures (AllGood Good) (admit widen zero32 clock client items s answer).0
  unfolding admit call
  admit-Keeps client items s (b, true) runs k =
      let batch = replicate (length (elems items)) (placeholder zero32) in
      report-Keeps b (elems items) (score_batch client none batch s)
        (score_batch-Safe client none batch s runs)
        (subst (λ n. WhenOk (λ gs. length gs ≡ n) (score_batch client none batch s).0)
          (length-replicate (length (elems items)) (placeholder zero32))
          (score_batch-length client none batch s))
        k
  admit-Keeps client items s (b, false) runs k = tt

  -- The ranker brings in no item that it was not given, and panics only if the server does.
  pub protected_ranker-Keeps :
      (client : Client σ G)
      → ServerRuns client.grpc
      → RankerKeeps Good (some (protected_ranker widen zero32 clock client))
  unfolding protected_ranker rank
  protected_ranker-Keeps client runs user items s k =
      admit-Keeps client items s.rest (allow (clock s.rest) s.breaker) runs k
