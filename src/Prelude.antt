-- ===== src/Prelude.antt =====
-- Names that every module shares: the libraries', and those of the children below.
mod Tests
mod Lists
mod Bytes
pub mod Results
pub mod Exec
pub mod Maps
pub use Tests.*
pub use Lists.*
unfoldable pub use Bytes.{bytes_discrete}
pub use Results.{Result, ok, err, ok_or, fail_if, map_err, >>=-ok, is_ok}
pub use Prim.Native.Nat.{ℕ, zero, suc, ◌+◌, ◌-◌, ◌*◌, ◌/◌, ◌%◌, ◌^◌, ◌≤◌, ◌<◌, min, max}
pub use Prim.Native.String.{String}
pub use mathlib.Core.Path.{◌≡◌, refl, sym, ap, subst, ◌∙◌}
pub use mathlib.Core.Logic.{◌≢◌, ◌↔◌, ◌⊎◌, inl, inr}
pub use mathlib.Core.Bool.{Bool, true, false, not, ◌&&◌, ◌||◌}
pub use mathlib.Core.Option.{Option, none, some}
pub use mathlib.Core.List.{List, [], ◌∷◌, ◌++◌, map, append-nil, append_assoc}
pub use native.Mathlib.Omega.{arith}
unfoldable pub use native.Mathlib.Decide.{dec_lt, dec_le, ℕ_discrete}
