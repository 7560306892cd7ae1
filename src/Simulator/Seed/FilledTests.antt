-- ===== src/Simulator/Seed/FilledTests.antt =====
-- A memory that the seeding program has filled, and the recommendation API on top of it.
use recsys_pipeline.Common.{
  ℕ, Option, get_elem?, length, ◌≡◌, refl, none, some, List, [], map, Distinct, ok, arith,
}
use recsys_pipeline.Common.Int.{ℤ, pos}
use recsys_pipeline.Common.Text.{Text, text}
use recsys_pipeline.Keys.{stock_bitmap}
use recsys_pipeline.Redis.{Redis, value, missing}
use recsys_pipeline.Stock.{is_out_of_stock, bit_result}
use recsys_pipeline.Dragonfly.{Database, get_recommendations}
use recsys_pipeline.Simulator.Seed.{Recommendation}
use recsys_pipeline.Simulator.Seed.Initial.{seed_main}
use recsys_pipeline.Simulator.Seed.Picks.{picked, IsPartOf}
use recsys_pipeline.Simulator.{item_name, user_name}
use recsys_pipeline.Simulator.Seed.Loaded.{
  catalogue, is_out_of_stock-seed_main, get_recommendations-seed_main,
}
use recsys_pipeline.Simulator.Seed.Served.{reply_of, as_served, IsReading}
use recsys_pipeline.Simulator.Seed.Tests.{
  whole, encode, decode, decode-encode, memory, as_is, memory_works, zeros, zeros-IsRandom, empty,
}
use recsys_pipeline.Redis.{Reply}
use recsys_pipeline.Server.{Connections}

abbrev bit_for : Option ℤ → Reply ℕ
bit_for none = missing
bit_for (some offset) = value 1

-- What the seeding program leaves in the memory.
abbrev filled : Text → Option Text
filled = (seed_main zeros memory empty).1

abbrev filled_at : Option Text → Reply Text
filled_at none = missing
filled_at (some k) = reply_of (filled k)

abbrev filled_replies : Redis
filled_replies = record {
  get = λ k. reply_of (filled k);
  get_bit = λ k o. value 1;
  pipeline_get = λ ks i. filled_at (get_elem? ks i);
  pipeline_get_bit = λ k os i. bit_for (get_elem? os i);
}

abbrev filled_database : Database ℕ
filled_database = record {
  get = λ k. reply_of (filled k);
  members = λ key. ok [];
  get_all = λ ks. ok [];
  decode_recs = λ json. ok (some (decode [] json));
  decode_experiment = λ json. none;
}

filled_database-IsReading : IsReading filled_database filled encode
filled_database-IsReading = record {
  get-eq = λ k. refl;
  decode-encoding = λ recs. λ i. ok (some (decode-encode recs i));
}

is_out_of_stock-seed_main_example :
    is_out_of_stock filled_replies (item_name 41)
    ≡ bit_result (filled_replies.get_bit stock_bitmap (pos 41))
is_out_of_stock-seed_main_example =
    is_out_of_stock-seed_main zeros memory as_is zeros-IsRandom memory_works empty filled_replies 41
      (λ k. refl) (omega arith)

finds_user_seven :
    (recs : List (Recommendation ℕ)) × (get_recommendations filled_database (user_name 7)
      ≡ ok (some (map as_served recs)))
    × (length recs ≡ 100)
    × Distinct (picked recs)
    × IsPartOf (picked recs) (catalogue 1000000)
finds_user_seven =
    get_recommendations-seed_main zeros memory as_is zeros-IsRandom memory_works empty
      filled_database 7 filled_database-IsReading (omega arith)

abbrev connections : Connections ℕ ℕ
connections = record {
  database = filled_database;
  stock_replies = filled_replies;
  sessions = record {
    rev_range = λ key a b. ok [];
    decode = λ json. none;
    to_int64 = λ x. pos 0;
    now = pos 0;
  };
  triton_addr = text "localhost:8001";
  widen = λ x. x;
  zero32 = 0;
  gap = λ w. w;
  ping = ok tt;
}
