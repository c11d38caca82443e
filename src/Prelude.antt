-- ===== src/Prelude.antt =====
-- The names that every module shares: the library's, passed on, and those of the children below.
-- It stands for no file of the repository.
mod Tests
mod Lists
mod Codes
mod Int
mod Search
pub use Tests.*
pub use Lists.*
unfoldable pub use Codes.*
pub use Int.*
unfoldable pub use Search.{starts_with, contains, lower, is_space, trim_start, trim_end, trim}
pub use Prim.Native.Nat.{ℕ, zero, suc, ◌+◌, ◌-◌, ◌*◌, ◌/◌, ◌%◌, ◌^◌, ◌≤◌, ◌<◌, min, max}
pub use Prim.Native.String.{String}
pub use mathlib.Core.Path.{◌≡◌, refl, sym, ap, ◌∙◌}
pub use mathlib.Core.Logic.{◌≢◌, ◌↔◌, ◌⊎◌, inl, inr}
pub use mathlib.Core.Bool.{Bool, true, false, not, ◌&&◌, ◌||◌}
pub use mathlib.Core.Option.{Option, none, some, some-injective}
pub use mathlib.Core.List.{List, [], ◌∷◌, ◌++◌, map, append_assoc, append-nil, reverse}
pub use native.Mathlib.Omega.{arith}
