-- ===== src/LoadTest/Users.antt =====
-- The users of the benchmark and of the traffic simulator against those that the database is seeded
-- with.
use recsys_pipeline.Common.Text.{Text}
