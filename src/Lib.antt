-- ===== src/Lib.antt =====
-- recsys-pipeline: a verification library of its Go services.
--
-- The recommendation API (services/recommendation-api) answers a request for a user in up to
-- three tiers: cached recommendations (tier 1), re-ranked by what the user did in this session
-- (tier 2), or, on a cache miss, popular items ranked by a model behind Triton (tier 3). The
-- files follow its packages; paths below are under services/recommendation-api/internal unless
-- they begin elsewhere.
--
--   Tier         tier/{types,interfaces,router}.go: `recommend` is Router.Recommend, in the steps
--                `candidates`, filter, `rerank_step`, `rank_step`, `truncate`. The router's
--                dependencies are records of actions on a state, which may change at every call.
--   Breaker      circuitbreaker/breaker.go: one function for each method, and `step` for any call.
--                Each method is one atomic step; clock readings are arguments. Breaker/Interleaved
--                has the same methods with each atomic operation as a step of a goroutine.
--   Degradation  degradation/level.go: the load thresholds and the tiers that a level leaves on.
--   Stock        stock/bitmap.go: the check of one item, and the filter with its two pipelines.
--   Rerank       rerank/{session,scorer,reranker}.go: features, scorer, re-ranker.
--   Triton       triton/{client,grpc_client}.go, and Triton/Ranker triton/ranker.go: a breaker and
--                the rest of the world are its state.
--   Experiment   experiment/router.go: the assignment by hash bucket, and the cache of experiments.
--   Dragonfly    store/dragonfly.go: recommendations, popular items and active experiments.
--   Handler      handler/{recommend,popular}_handler.go with metrics/metrics.go: requests in,
--                responses and recorded metrics out.
--   Server       services/recommendation-api/cmd/server/main.go: the parts put together; its
--                theorems fill the contracts that Tier and Handler ask of their dependencies;
--                Server/Routes has the routes with the three handlers; Server/Seeded puts the router
--                on the database that the traffic simulator seeds.
--   Events       services/event-collector/internal/{handler,producer,counter} with
--                shared/go/event/event.go: intake of events, producer, counter; Events/Server
--                cmd/server/main.go: the settings and the routes over any sequence of requests.
--   Simulator    services/traffic-simulator/internal/generator/{types,items,users}.go: the
--                catalogue and the users; Simulator/Seed internal/generator/seed.go and
--                cmd/seed/main.go: what they leave in DragonflyDB, and what the recommendation API
--                reads of it (Seed/Served); Simulator/Traffic cmd/simulate/main.go: the random
--                events, and the goroutines that post them, as a step relation.
--   LoadTest     load-tests/bench.go: its workers as a step relation, its report, its users.
--   Ranking      services/ranking-service/client/triton_client.go: the same client, item by item.
--   Sort         sort.SliceStable as the scorer uses it, and sortByScoreDesc of triton/ranker.go.
--   Keys         shared/go/keys/keys.go.
--   Redis        what the code reads of DragonflyDB: a parameter.
--   Strconv      what the code uses of Go's strconv.
--   Common       results, actions, slices, lists, texts, integers, and floats as an interface.
--
-- A Go function that returns (T, error) is a `Result`, with a third case for a panic; one that
-- calls a dependency is an `Action` on a state. A nil interface or pointer is `none`, and a nil
-- slice is `none` too, so that it is told apart from an empty one. Texts are lists of bytes. A
-- float is any type with the operations of `Float`; sorted results rest on the laws of IEEE 754
-- comparison (`IsOrdered`), which whole tenths with a NaN are shown to meet. Counters of 64 bits
-- wrap. Every loop is structural: over the items, or, in the insertion sort, over the index. The
-- digits of a number n are written with n + 1 rounds, more than it has digits. A pipeline of the
-- seeding takes a thousand commands; its description by pieces of the list has as many rounds as
-- there are items, and no piece is empty. The counts of the simulator and of the benchmark are plain
-- numbers: it would take 2 ^ 63 requests for one to overflow.
--
-- DragonflyDB, Triton, Kafka, the JSON codec, math/rand, sort.Slice and the order of a map's
-- iteration are arguments of the definitions that call them.
-- What a theorem asks of them is among its hypotheses: that a call does not panic, that it
-- returns a response with each nil error, or that a pipelined command has the reply that it would
-- have alone, or, for the seeding, that the database takes every write and that random numbers are
-- in their ranges. Not modelled: logging, closing of connections, HTTP transport and the shutdown of
-- the servers, the text of a URL, and the printing of results, which compute nothing. The ranker
-- calls the breaker's methods as atomic. A load of experiments has two critical sections:
-- what other goroutines do in between is a function on the state, `gap`.
pub mod Breaker
pub mod Common
pub mod Degradation
pub mod Dragonfly
pub mod Events
pub mod Experiment
pub mod Handler
pub mod Keys
pub mod LoadTest
pub mod Ranking
pub mod Redis
pub mod Rerank
pub mod Server
pub mod Simulator
pub mod Sort
pub mod Stock
pub mod Strconv
pub mod Tier
pub mod Triton
