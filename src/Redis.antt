-- ===== src/Redis.antt =====
-- DragonflyDB, reached through go-redis, as the code reads it in the course of one request. The
-- database is not part of the repository: its replies are parameters.
use recsys_pipeline.Common.{ℕ, List, some, Error, get_elem?, ◌≡◌}
use recsys_pipeline.Common.Int.{ℤ}
use recsys_pipeline.Common.Text.{Text}

-- The result of one command: a value, `redis.Nil`, or another error.
pub data Reply (A : Type 0) : Type 0 where
  value : A → Reply A
  missing : Reply A
  failed : Error → Reply A

-- The replies to GET and GETBIT, alone or in a pipeline, where a command has a reply by its place.
pub record Redis : Type 0 where
  pub get : Text → Reply Text
  pub get_bit : Text → ℤ → Reply ℕ
  pub pipeline_get : List Text → ℕ → Reply Text
  pub pipeline_get_bit : Text → List ℤ → ℕ → Reply ℕ

-- No write comes between the commands of one request and no connection is lost, so that a command
-- in a pipeline has the reply that it has alone.
pub record IsSnapshot (db : Redis) : Type 0 where
  pub get_alone :
      (ks : List Text) (i : ℕ) (k : Text)
      → get_elem? ks i ≡ some k
      → db.pipeline_get ks i ≡ db.get k
  pub get_bit_alone :
      (k : Text) (os : List ℤ) (i : ℕ) (o : ℤ)
      → get_elem? os i ≡ some o
      → db.pipeline_get_bit k os i ≡ db.get_bit k o
