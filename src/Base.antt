-- ===== src/Base.antt =====
-- What the other modules share: the libraries' names, passed on, tests on numbers, lists measured
-- by native numbers, signed integers, and Go's (value, error) pairs.
mod Tests
mod Lists
mod Int
mod Errors
mod Strings
mod Maps
pub use Tests.*
pub use Lists.*
unfoldable pub use Int.*
pub use Errors.*
pub use Strings.*
unfoldable pub use Maps.*
pub use Prim.Native.Nat.{ℕ, zero, suc, ◌+◌, ◌-◌, ◌*◌, ◌/◌, ◌%◌, ◌^◌, ◌≤◌, ◌<◌}
pub use mathlib.Core.Path.{◌≡◌, refl, sym, ap, ◌∙◌}
pub use mathlib.Core.Logic.{◌≢◌, ◌↔◌, ◌⊎◌, inl, inr}
pub use mathlib.Core.Bool.{Bool, true, false, not, ◌&&◌, ◌||◌}
pub use mathlib.Core.Option.{Option, none, some}
pub use mathlib.Core.List.{List, [], ◌∷◌, ◌++◌, map, append-nil, append_assoc}
pub use native.Mathlib.Omega.{arith}
