-- ===== src/Base.antt =====
-- Names, tests, lists, dictionaries and the worklist closure that the components share.
mod Tests
mod Lists
mod Equality
mod Dicts
mod Results
pub mod Options
mod Worklist
pub use Tests.*
pub use Lists.*
unfoldable pub use Equality.*
unfoldable pub use Dicts.*
unfoldable pub use Worklist.*
pub use Results.*
pub use Prim.Native.Nat.{ℕ, zero, suc, ◌+◌, ◌-◌, ◌*◌, ◌≤◌, ◌<◌, min}
pub use Prim.Native.String.{String}
pub use mathlib.Core.Path.{◌≡◌, refl, sym, ap, ap₂, subst, ◌∙◌}
pub use mathlib.Core.Logic.{◌≢◌, ◌↔◌, ◌⊎◌, inl, inr, ⊎_elim}
pub use mathlib.Core.Bool.{Bool, true, false, not, ◌&&◌, ◌||◌}
pub use mathlib.Core.Option.{Option, none, some}
pub use mathlib.Core.List.{List, [], ◌∷◌, ◌++◌, map, reverse, append-nil, append_assoc, map-append}
pub use mathlib.Core.List.{Memᴰ}
pub use native.Mathlib.Omega.{arith}
