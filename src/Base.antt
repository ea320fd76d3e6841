-- ===== src/Base.antt =====
-- What every part shares: the library's names passed on, Boolean tests, lists over the native
-- numbers, signed integers (Base/Int) for `int`, `time_t` and file descriptors.
mod Tests
mod Lists
mod Int
mod Decimal
mod Bytes
mod Fallible
pub use Tests.*
pub use Lists.*
unfoldable pub use Int.*
unfoldable pub use Decimal.{digits, is_digit, read_number}
unfoldable pub use Bytes.{codes, eqb_bytes, find}
pub use Bytes.{eqb_bytes_eq, Lacks}
pub use Fallible.{◌>>=◌, ◌>>◌, guard, some_inj, bind-some}
pub use Decimal.{read_number-digits, digits-Lacks, digits-nonempty}
pub use Prim.Native.Nat.{ℕ, zero, suc, ◌+◌, ◌-◌, ◌*◌, ◌/◌, ◌%◌, ◌^◌, ◌≤◌, ◌<◌, min, max}
pub use mathlib.Core.Path.{◌≡◌, refl, sym, ap, subst, ◌∙◌}
pub use mathlib.Core.Logic.{◌≢◌, ◌↔◌, ◌⊎◌, inl, inr}
pub use mathlib.Core.Bool.{Bool, true, false, not, ◌&&◌, ◌||◌}
pub use mathlib.Core.Option.{Option, none, some}
pub use mathlib.Core.List.{List, [], ◌∷◌, ◌++◌, map, append_assoc, append-nil}
pub use native.Mathlib.Omega.{arith}
