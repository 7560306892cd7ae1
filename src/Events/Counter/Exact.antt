-- ===== src/Events/Counter/Exact.antt =====
-- When the key tells users and types apart, and the counter counts exactly.
use recsys_pipeline.Common.{ℕ, suc, ◌^◌, ◌<◌, ◌≢◌, ◌&&◌, List, [], ◌∷◌, All, if◌then◌else◌}
use recsys_pipeline.Common.Text.{Text, same}
use recsys_pipeline.Events.Counter.{Counter}

-- No byte of the text is a colon.
abbrev pub NoColon : Text → Type 0
NoColon s = All (λ c. c ≢ b':') s

-- How many of the events are of this user and type.
abbrev pub occurrences : Text → Text → List (Text × Text) → ℕ
occurrences user event_type [] = 0
occurrences user event_type ((u, t) ∷ es) =
    let rest = occurrences user event_type es in
    if same user u && same event_type t then suc rest else rest

Bounded : Counter → Type 0
Bounded c = All (λ e. e.1 < 2 ^ 64) c
