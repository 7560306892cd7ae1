-- ===== src/Server/Seeded.antt =====
-- The server on the database that the seeding program leaves.
use recsys_pipeline.Common.Text.{Text}
use recsys_pipeline.Common.Float.{Float}
use recsys_pipeline.Degradation
use recsys_pipeline.Degradation.{Manager}
use recsys_pipeline.Redis.{Redis}
use recsys_pipeline.Tier.{
  Recs, Router, allowed_by, pipeline, candidates, serve, rerank_step, rank_step,
}
use recsys_pipeline.Tier
