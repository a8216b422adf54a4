-- ===== src/Prelude.antt =====
-- The names that the other modules share: the libraries', passed on, and those of the children.
mod Tests
mod Lists
mod Strings
mod Sorting
mod Outcome
mod Maps
mod Decimal
pub use Tests.*
pub use Lists.*
pub use Strings.{Text, codes, has_prefix, trim_prefix, push_head, split, cut, join, contains_byte}
pub use Strings.{≟_iff, ≟_refl, ≟-eq_false, text_less_asym}
unfoldable pub use Strings.{◌≟◌, text_less}
unfoldable pub use Sorting.{insert_by, sort_by}
pub use Sorting.{sort_by-All, sort_by-Any, sort_by-sort_by}
pub use Maps.{Assoc, get-remove, get-put, get-put_cases, IsTable, put-IsTable, remove-IsTable}
unfoldable pub use Maps.{get, remove, put, has_key}
unfoldable pub use Decimal.{format_int}
pub use Outcome.{Result, ok, err, ◌>>=◌, >>=-eq-ok, >>=_cases}
pub use Prim.Native.Nat.{ℕ, zero, suc, ◌+◌, ◌-◌, ◌*◌, ◌/◌, ◌%◌, ◌^◌, ◌≤◌, ◌<◌, min}
pub use mathlib.Core.Path.{◌≡◌, refl, sym, ap, ◌∙◌}
pub use mathlib.Core.Logic.{◌≢◌, ◌↔◌, ◌⊎◌, inl, inr}
pub use mathlib.Core.Bool.{Bool, true, false, not, ◌&&◌, ◌||◌}
pub use mathlib.Core.Option.{Option, none, some}
pub use mathlib.Core.List.{List, [], ◌∷◌, ◌++◌, map, append_assoc, append-nil}
pub use native.Mathlib.Omega.{arith}
