-- ===== src/Base.antt =====
-- The names that the other modules share.
pub mod Equality
pub mod Effects
pub mod Counts
pub mod Outcomes
pub mod Lists
pub mod Maps
pub mod Results
pub mod Retries
pub mod Rules
pub mod Text
pub mod Words
unfoldable pub use Equality.*
unfoldable pub use Effects.*
unfoldable pub use Counts.*
pub use Outcomes.*
pub use Lists.*
unfoldable pub use Maps.*
pub use Rules.*
pub use Retries.*
pub use Results.*
unfoldable pub use Text.*
pub use Words.*
pub use Prim.Native.Nat.{ℕ, zero, suc, ◌+◌, ◌-◌, ◌≤◌, ◌<◌}
pub use Prim.Native.String.{String, ◌++◌ as ◌<>◌}
pub use mathlib.Core.Path.{◌≡◌, refl, sym, ap, subst, subst₂, ◌∙◌}
pub use mathlib.Core.Logic.{◌≢◌, ◌↔◌, ◌⊎◌, inl, inr}
pub use mathlib.Core.Bool.{Bool, true, false, not, ◌&&◌, ◌||◌}
pub use mathlib.Core.Option.{Option, none, some}
pub use mathlib.Core.List.{List, [], ◌∷◌, ◌++◌, map}
pub use native.Mathlib.Omega.{arith}
