-- ===== src/Base.antt =====
-- Names and helpers that every component shares: the libraries' names, Boolean tests on the native
-- numbers, results with the exceptions of the API, and the monad of a handler.
mod Tests
mod Lists
mod Texts
mod Handler
mod Rules
pub use Tests.*
pub use Lists.*
pub use Texts.*
pub use Rules.*
pub use Handler.*
pub use Prim.Native.Nat.{ℕ, zero, suc, ◌+◌, ◌-◌, ◌*◌, ◌/◌, ◌%◌, ◌^◌, ◌≤◌, ◌<◌}
pub use mathlib.Core.Path.{◌≡◌, refl, sym, ap, ◌∙◌}
pub use mathlib.Core.Logic.{◌≢◌, ◌↔◌, ◌⊎◌, inl, inr}
pub use mathlib.Core.Bool.{Bool, true, false, not, ◌&&◌, ◌||◌}
pub use mathlib.Core.Option.{Option, none, some}
pub use mathlib.Core.List.{List, [], ◌∷◌, ◌++◌, map}
pub use native.Mathlib.Omega.{arith}
