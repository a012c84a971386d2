-- ===== src/Prelude.antt =====
-- The names that the other modules share: the libraries', passed on, the tests on numbers, lists
-- measured by the native numbers, the result type of fallible code, and loops on fuel.
mod Tests
mod Lists
mod Results
mod Loops
mod Integers
pub use Tests.*
pub use Lists.*
pub use Integers.*
unfoldable pub use Loops.{loop}
pub use Loops.{Round, stop, next, Progress, loop_total}
pub use Results.*
pub use Prim.Native.Nat.{ℕ, zero, suc, ◌+◌, ◌-◌, ◌*◌, ◌/◌, ◌%◌, ◌^◌, ◌≤◌, ◌<◌}
pub use Prim.Native.Char.{Char, code}
pub use Prim.Native.String.{String}
pub use mathlib.Core.Path.{◌≡◌, refl, sym, ap, subst, ◌∙◌, ◌≡⟨◌⟩◌, ◌∎}
pub use mathlib.Core.Logic.{◌≢◌, ◌↔◌, ◌⊎◌, inl, inr}
pub use mathlib.Core.Bool.{Bool, true, false, not, ◌&&◌, ◌||◌}
pub use mathlib.Core.Option.{Option, none, some}
pub use mathlib.Core.List.{List, [], ◌∷◌, ◌++◌, map}
pub use native.Mathlib.Omega.{arith}
pub use text.Mathlib.TextEquality.{eq_iff}
pub use text.Mathlib.TextPositions.{eq_refl}
