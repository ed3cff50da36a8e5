-- ===== src/Common.antt =====
-- The names that every other module shares: the libraries' names passed on, and those of the
-- children (tests, lists, results, texts, orders, words and decimal numbers as Rust's standard library has them).
mod Tests
mod Lists
mod Results
mod Texts
mod Orders
mod Words
pub mod Decimal
pub use Tests.*
pub use Lists.*
pub use Results.*
pub use Texts.*
pub use Orders.*
pub use Words.*
pub use Prim.Native.Nat.{ℕ, zero, suc, ◌+◌, ◌-◌, ◌*◌, ◌/◌, ◌%◌, ◌^◌, ◌≤◌, ◌<◌, min}
pub use mathlib.Core.Path.{◌≡◌, refl, sym, ap, subst, ◌∙◌, ◌≡⟨◌⟩◌, ◌∎}
pub use mathlib.Core.Logic.{◌≢◌, ◌↔◌, ◌⊎◌, inl, inr}
pub use mathlib.Core.Bool.{Bool, true, false, not, ◌&&◌, ◌||◌}
pub use mathlib.Core.Option.{Option, none, some}
pub use mathlib.Core.List.{List, [], ◌∷◌, ◌++◌, map, append_assoc, append-nil}
pub use native.Mathlib.Omega.{arith}
