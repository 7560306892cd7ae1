-- ===== src/Sort.antt =====
-- Two sorts of the recommendation API: `sort.SliceStable` of Go's library, as the stable insertion
-- sort that gives its result for any strict weak order, and the in-place insertion sort of
-- services/recommendation-api/internal/triton/ranker.go. `before a b` says that `a` must come
-- before `b`.
mod Defs
mod Stable
mod InPlace
mod Kept
mod Scores
mod Tests
unfoldable pub use Defs.*
pub use Stable.*
pub use InPlace.*
pub use Kept.*
pub use Scores.*
