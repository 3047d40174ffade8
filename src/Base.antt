-- ===== src/Base.antt =====
-- The names that the modules of the library share: the libraries', passed on, and those of the
-- children.
mod Tests
mod Lists
mod Texts
mod Results
mod Maps
mod NatMaps
pub use Tests.*
pub use Lists.*
unfoldable pub use Texts.*
pub use Results.*
unfoldable pub use Maps.*
unfoldable pub use NatMaps.*
pub use Prim.Native.Nat.{ℕ, zero, suc, ◌+◌, ◌-◌, ◌*◌, ◌%◌, ◌^◌, ◌/◌, ◌≤◌, ◌<◌}
pub use mathlib.Core.Path.{◌≡◌, refl, sym, ap, ap₂, ◌∙◌, subst}
pub use mathlib.Core.Logic.{◌≢◌, ◌↔◌, ◌⊎◌, inl, inr}
pub use mathlib.Core.Bool.{Bool, true, false, not, ◌&&◌, ◌||◌}
pub use mathlib.Core.Option.{Option, none, some}
pub use mathlib.Core.List.{List, [], ◌∷◌, ◌++◌, map, append-nil, append_assoc}
pub use native.Mathlib.Omega.{arith}
