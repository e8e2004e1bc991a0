-- ===== src/Base.antt =====
-- What the other modules share: names of the libraries, passed on, and the children's tests,
-- lists, bytes and results.
mod Bools
mod Lists
mod Encoding
mod Results
mod Slices
mod Words
mod Alls
pub mod Dict
pub mod ByteDict
pub use Bools.*
pub use Lists.*
pub use Alls.*
unfoldable pub use Encoding.*
pub use Results.*
unfoldable pub use Slices.*
unfoldable pub use Words.*
pub use Prim.Native.Nat.{ℕ, zero, suc, ◌+◌, ◌-◌, ◌*◌, ◌/◌, ◌%◌, ◌^◌, ◌≤◌, ◌<◌, min, max}
pub use mathlib.Core.Path.{◌≡◌, refl, sym, ap, ◌∙◌, subst}
pub use mathlib.Core.Logic.{◌≢◌, ◌↔◌, ◌⊎◌, inl, inr}
pub use mathlib.Core.Bool.{Bool, true, false, not, ◌&&◌, ◌||◌}
pub use mathlib.Core.Option.{Option, none, some}
pub use mathlib.Core.List.{List, [], ◌∷◌, ◌++◌, map, append_assoc, append-nil}
pub use native.Mathlib.Omega.{arith}
