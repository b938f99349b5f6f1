-- ===== src/Prelude.antt =====
-- The names that the other modules share: the libraries', passed on, and those of the children
-- (tests on numbers, lists measured by native numbers, signed integers, Go's `==`, loops that search).
pub mod Tests
pub mod Lists
pub mod Int
pub mod Equality
pub mod Search
pub mod Fallible
pub use Tests.{ltb, leb, if◌then◌else◌, Bool-cases, Option-cases, Sum-cases}
pub use Lists.{length, length-append}
pub use Int.{ℤ, pos, negsuc, pos_part, neg_part, ltb_ℤ, leb_ℤ}
pub use Equality.{
  Comparable, ◌==◌, ◌/=◌, string_eq, int_eq, nat_eq_class, beq_refl, beq-cases, beq_sym,
}
pub use Search.{
  All, Any, any, all, keep, all_iff, any_iff, all-append, any-append, contains, contains-append,
  contains-keep_ne, Any-map, All-map, Distinct, Distinct-append,
}
pub use Prim.Native.Nat.{ℕ, zero, suc, ◌+◌, ◌-◌, ◌*◌, ◌/◌, ◌%◌, ◌^◌, ◌≤◌, ◌<◌}
pub use Prim.Native.String.{String}
pub use text.Mathlib.TextEquality.{eq_iff}
pub use mathlib.Core.Path.{◌≡◌, refl, sym, ap, ◌∙◌}
pub use mathlib.Core.Logic.{◌≢◌, ◌↔◌, ◌⊎◌, inl, inr}
pub use mathlib.Core.Bool.{Bool, true, false, not, ◌&&◌, ◌||◌}
pub use mathlib.Core.Option.{Option, none, some}
pub use mathlib.Core.List.{List, [], ◌∷◌, ◌++◌, map}
pub use native.Mathlib.Omega.{arith}
