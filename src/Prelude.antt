-- ===== src/Prelude.antt =====
-- The names that the other modules share: the libraries', passed on, and those of the children.
pub mod Tests
pub mod Lists
pub mod Results
pub mod Text
pub use Tests.{
  ltb, leb, ◌==◌, if◌then◌else◌, ==_iff, Bool-cases, Option-cases, &&-eq-true, eq_of_iff_true,
}
pub use Lists.{
  length, take, drop, all, All, length-append, drop-append, take-append, take-length, all-append,
  append-left_cancel,
}
pub use Results.{
  Result, ok, err, ◌>>=◌, ◌>>◌, map_err, >>=-eq-ok, >>-eq-ok, Result-cases, ok-injective,
  err-injective, map_err-eq-ok, if-eq-ok, required, required-eq-ok, check-eq-ok,
}
pub use Text.{
  Bytes, bytes_eq_iff, is_empty, or_nil, codes, Bytes-cases, slice, has_prefix-append,
  eq-append_of_has_prefix, slice-append,
}
unfoldable pub use Text.{bytes_eq, has_prefix, contains}
pub use Prim.Native.Nat.{ℕ, zero, suc, ◌+◌, ◌-◌, ◌*◌, ◌/◌, ◌%◌, ◌^◌, ◌≤◌, ◌<◌}
pub use mathlib.Core.Path.{◌≡◌, refl, sym, ap, ◌∙◌}
pub use mathlib.Core.Logic.{◌≢◌, ◌↔◌, ◌⊎◌, inl, inr}
pub use mathlib.Core.Bool.{Bool, true, false, not, ◌&&◌, ◌||◌}
pub use mathlib.Core.Option.{Option, none, some}
pub use mathlib.Core.List.{List, [], ◌∷◌, ◌++◌, map, append-nil, append_assoc}
pub use native.Mathlib.Omega.{arith}
