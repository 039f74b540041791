-- ===== src/Prelude.antt =====
-- The names that every module shares: the libraries', passed on, and the helpers on tests, lists
-- and texts below.
mod Tests
mod Lists
mod Strings
mod Int
pub use Tests.*
pub use Lists.*
unfoldable pub use Strings.*
unfoldable pub use Int.*
pub use Prim.Native.Nat.{ℕ, zero, suc, ◌+◌, ◌-◌, ◌*◌, ◌/◌, ◌%◌, ◌≤◌, ◌<◌}
pub use mathlib.Core.Path.{◌≡◌, refl, sym, ap, subst, ap₂, ◌∙◌, ◌≡⟨◌⟩◌, ◌∎}
pub use mathlib.Core.Logic.{◌≢◌, ◌↔◌, ◌⊎◌, inl, inr}
pub use mathlib.Core.Bool.{Bool, true, false, not, ◌&&◌, ◌||◌}
pub use mathlib.Core.Option.{Option, none, some}
pub use mathlib.Core.List.{
  List, [], ◌∷◌, ◌++◌, map, reverse, reverse-reverse, reverse-append, append_assoc, append-nil,
}
pub use native.Mathlib.Omega.{arith}
