-- ===== src/LoadTest/Requests.antt =====
-- The requests of the benchmark's three phases. math/rand is a parameter, with the comparisons of
-- `rand.Float32()`; an event is what the collector decodes of its JSON text.
use recsys_pipeline.Common.{
  ℕ, zero, suc, ◌<◌, ◌≡◌, refl, Bool, true, false, List, [], ◌∷◌, ◌++◌, length, ok, Action, ◌>>=◌,
  pure, of_result, when, arith, Gives, Bool-cases, inl, inr,
}
use recsys_pipeline.Common.Int.{ℤ, pos}
use recsys_pipeline.Common.Text.{Text, text, same}
use recsys_pipeline.Common.Decimal.{pad_zero}
use recsys_pipeline.Events.{EventRequest, is_valid_type}
use recsys_pipeline.Events.Intake.{is_complete}
use recsys_pipeline.Simulator.{Random, IsRandom, total, item_name}
use recsys_pipeline.Simulator.Traffic.{type_at}
use recsys_pipeline.LoadTest.{get_env, get_env_int, bench_user}

pub record Settings : Type 0 where
  pub recommend_url : Text
  pub event_url : Text
  pub vus : ℤ
  pub duration_secs : ℤ

-- From the values of the four environment variables.
unfoldable pub bench_settings : Text → Text → Text → Text → Settings
bench_settings recommend event vus duration = record {
  recommend_url = get_env recommend (text "http://localhost:8090");
  event_url = get_env event (text "http://localhost:8080");
  vus = get_env_int vus (pos 100);
  duration_secs = get_env_int duration (pos 30);
}

-- A GET of a URL, or a POST of an event to a URL.
pub data BenchRequest : Type 0 where
  fetch : (url : Text) → BenchRequest
  post : (url : Text) → (event : EventRequest) → BenchRequest

abbrev pub bench_types : List Text
bench_types = text "click" ∷ text "view" ∷ text "purchase" ∷ text "search" ∷ text "add_to_cart" ∷ []

abbrev pub recommend_path : Text → ℕ → Text → Text
recommend_path url user session =
    url ++ (text "/api/v1/recommend?user_id=" ++ (bench_user user ++ (text "&limit=20" ++ session)))

abbrev pub event_for : Text → ℕ → ℕ → EventRequest
event_for kind user item = record {
  event_type = kind;
  user_id = bench_user user;
  item_id = item_name item;
  category_id = [];
  session_id = [];
  metadata = record { query = []; position = pos 0; price = pos 0; source = [] };
}

-- `below p` says whether the next `rand.Float32()` is below p percent.
module _ {σ : Type 0} (r : Random σ) (below : ℕ → σ → Bool × σ) where
  session_part : Bool → Action σ Text
  session_part false = pure []
  session_part true = do
    session ← total (r.intn 1000000000)
    pure (text "&session_id=sess_" ++ pad_zero 10 session)

  -- Phase 1
  unfoldable pub recommend_request : Text → Action σ BenchRequest
  unfolding session_part
  recommend_request url = do
    user ← total (r.intn 100000)
    named ← total (below 60)
    session ← session_part named
    pure (fetch (recommend_path url user session))

  -- Phase 2
  unfoldable pub event_request : Text → Action σ BenchRequest
  event_request url = do
    kind ← total (r.intn (length bench_types))
    event_type ← of_result (type_at bench_types kind)
    user ← total (r.intn 100000)
    item ← total (r.intn 1000000)
    pure (post (url ++ text "/api/v1/events") (event_for event_type user item))

  plain_request : Text → Action σ BenchRequest
  plain_request url = do user ← total (r.intn 100000); pure (fetch (recommend_path url user []))

  -- Phase 3
  unfoldable pub mixed_request : Text → Text → Action σ BenchRequest
  unfolding plain_request event_request
  mixed_request recommend event = do
    read ← total (below 80)
    when read (plain_request recommend) (event_request event)

-- A read for a user that may be asked for, or a complete event for an item of the catalogue.
abbrev pub IsServable : Text → Text → BenchRequest → Type 0
IsServable recommend event (fetch url) =
    (user : ℕ) × (session : Text) × (user < 100000) × (url ≡ recommend_path recommend user session)
IsServable recommend event (post url e) =
    (url ≡ event ++ text "/api/v1/events")
    × (is_complete e ≡ true)
    × ((item : ℕ) × (item < 1000000) × (e.item_id ≡ item_name item))

type_at-valid :
    (i : ℕ)
    → i < length bench_types
    → (t : Text) × (type_at bench_types i ≡ ok t) × (is_valid_type t ≡ true)
unfolding is_valid_type same
type_at-valid zero h = (text "click", refl, refl)
type_at-valid (suc zero) h = (text "view", refl, refl)
type_at-valid (suc (suc zero)) h = (text "purchase", refl, refl)
type_at-valid (suc (suc (suc zero))) h = (text "search", refl, refl)
type_at-valid (suc (suc (suc (suc zero)))) h = (text "add_to_cart", refl, refl)
type_at-valid (suc (suc (suc (suc (suc i))))) h = absurd (omega arith)

module _ {σ : Type 0} (r : Random σ) (below : ℕ → σ → Bool × σ) (random : IsRandom r) where
  event_request-IsServable :
      (recommend event : Text) (s : σ)
      → Gives (λ q _. IsServable recommend event q) (event_request r below event s)
  unfolding event_request bench_user item_name same
  event_request-IsServable recommend event s =
      let kind = r.intn 5 s in
      let known = type_at-valid kind.0 (random.intn-lt 5 s (omega arith)) in
      let user = r.intn 100000 kind.1 in
      let item = r.intn 1000000 user.1 in
      rw known.1
        (refl, rw known.2 refl, (item.0, random.intn-lt 1000000 user.1 (omega arith), refl))

  recommend_request-IsServable :
      (recommend event : Text) (s : σ)
      → Gives (λ q _. IsServable recommend event q) (recommend_request r below recommend s)
  unfolding recommend_request session_part
  recommend_request-IsServable recommend event s =
      let user = r.intn 100000 s in
      let named = below 60 user.1 in
      let drawn : user.0 < 100000 = random.intn-lt 100000 s (omega arith) in
      elim (Bool-cases named.0) [
        | inl e ↦ rw e (user.0, _, drawn, refl)
        | inr e ↦ rw e (user.0, [], drawn, refl)
      ]

  mixed_request-IsServable :
      (recommend event : Text) (s : σ)
      → Gives (λ q _. IsServable recommend event q) (mixed_request r below recommend event s)
  unfolding mixed_request plain_request
  mixed_request-IsServable recommend event s =
      let read = below 80 s in
      elim (Bool-cases read.0) [
        | inl e ↦
            rw e ((r.intn 100000 read.1).0, [], random.intn-lt 100000 read.1 (omega arith), refl)
        | inr e ↦ rw e (event_request-IsServable recommend event read.1)
      ]

  -- In all three phases the benchmark sends a read of 20 recommendations for one of 100,000 users, or
  -- an event with a known type and a user, for an item of the catalogue of 1,000,000. The random
  -- numbers are in their ranges.
  pub requests-IsServable :
      (recommend event : Text) (s : σ)
      → Gives (λ q _. IsServable recommend event q) (recommend_request r below recommend s)
        × Gives (λ q _. IsServable recommend event q) (event_request r below event s)
        × Gives (λ q _. IsServable recommend event q) (mixed_request r below recommend event s)
  requests-IsServable recommend event s = (
    recommend_request-IsServable recommend event s,
    event_request-IsServable recommend event s,
    mixed_request-IsServable recommend event s,
  )
