-- ===== src/Common.antt =====
-- Names that the other modules share: those of the libraries, passed on, and the helpers of the
-- children. No code of the repository is modelled here.
mod Tests
mod Lists
mod Results
mod Actions
mod Outcomes
mod Slices
pub mod Permuted
pub mod Int
pub mod Text
pub mod Decimal
pub mod Float
pub use Tests.*
pub use Lists.*
pub use Results.*
pub use Actions.*
pub use Outcomes.*
pub use Slices.*
unfoldable pub use Slices.{truncate}
pub use Prim.Native.Nat.{ℕ, zero, suc, ◌+◌, ◌-◌, ◌*◌, ◌/◌, ◌%◌, ◌^◌, ◌≤◌, ◌<◌, min}
pub use mathlib.Core.Path.{◌≡◌, refl, sym, ap, ◌∙◌, subst, fun_ext}
pub use mathlib.Core.Logic.{◌≢◌, ◌↔◌, ◌⊎◌, inl, inr}
pub use mathlib.Core.Bool.{Bool, true, false, not, ◌&&◌, ◌||◌}
pub use mathlib.Core.Option.{Option, none, some}
pub use mathlib.Core.List.{List, [], ◌∷◌, ◌++◌, map, append-nil, append_assoc}
pub use native.Mathlib.Omega.{arith}
