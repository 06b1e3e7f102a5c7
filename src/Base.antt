-- ===== src/Base.antt =====
-- Names that every module shares: the library's, passed on, and those of the children (Boolean
-- tests, lists and tables, error results, Go's strings). They model no file of the repository.
pub mod Tests
pub mod Table
pub mod Results
pub mod Text
pub mod Int
pub use Tests.*
pub use Results.*
pub use Prim.Native.Nat.{ℕ, zero, suc, ◌+◌, ◌-◌, ◌*◌, ◌/◌, ◌%◌, ◌^◌, ◌≤◌, ◌<◌}
pub use mathlib.Core.Path.{◌≡◌, refl, sym, ap, ◌∙◌}
pub use mathlib.Core.Logic.{◌≢◌, ◌↔◌, ◌⊎◌, inl, inr}
pub use mathlib.Core.Bool.{Bool, true, false, not, ◌&&◌, ◌||◌}
pub use mathlib.Core.Option.{Option, none, some}
pub use mathlib.Core.List.{List, [], ◌∷◌, ◌++◌, map}
pub use native.Mathlib.Omega.{arith}

-- A UUID, which the program only compares.
abbrev pub Uuid : Type 0
Uuid = ℕ

-- An instant or a duration, in microseconds: what a `timestamptz` column keeps.
abbrev pub Time : Type 0
Time = ℕ

abbrev pub seconds : ℕ → Time
seconds n = n * 1000000
