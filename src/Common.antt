-- ===== src/Common.antt =====
-- Names that the modules share: the library's, passed on, and those of the children.
mod Tests
mod Lists
mod Results
mod Words
mod Streams
mod Ascii
pub mod Steady
pub use Tests.*
pub use Lists.*
pub use Ascii.*
pub use Results.*
unfoldable pub use Words.*
unfoldable pub use Streams.*
pub use Prim.Native.Nat.{ℕ, zero, suc, ◌+◌, ◌-◌, ◌*◌, ◌/◌, ◌%◌, ◌^◌, ◌≤◌, ◌<◌}
pub use mathlib.Core.Path.{◌≡◌, refl, sym, ap, ◌∙◌, subst}
pub use mathlib.Core.Logic.{◌≢◌, ◌↔◌, ◌⊎◌, inl, inr}
pub use mathlib.Core.Bool.{Bool, true, false, not, ◌&&◌, ◌||◌}
pub use mathlib.Core.Option.{Option, none, some}
pub use mathlib.Core.List.{List, [], ◌∷◌, ◌++◌, append-nil, append_assoc}
pub use native.Mathlib.Omega.{arith}
