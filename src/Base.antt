-- ===== src/Base.antt =====
-- The names that every part shares: the libraries', passed on, and those of the children.
mod Tests
mod Lists
mod Bytes
mod Results
mod Loops
pub mod Searches
pub mod Int
pub mod Decimal
pub mod Base64
pub use Results.{Error, is_nil, Result, ok, err, panic, is_ok}
unfoldable pub use Loops.{modify_first, remove_first, find_first, modify_all, any}
pub use Loops.*
pub use Tests.*
unfoldable pub use Lists.{contains}
pub use Lists.*
unfoldable pub use Bytes.{text_beq, is_empty, has_prefix, split, join}
pub use Bytes.{
  Text, text, text_beq_iff, text_beq_refl, text_eq, Lacks, split-append, split_of_Lacks,
  Lacks-append,
}
pub use Prim.Native.Nat.{ℕ, zero, suc, ◌+◌, ◌-◌, ◌*◌, ◌/◌, ◌%◌, ◌^◌, ◌≤◌, ◌<◌}
pub use mathlib.Core.Path.{◌≡◌, refl, sym, ap, ◌∙◌}
pub use mathlib.Core.Logic.{◌≢◌, ◌↔◌, ◌⊎◌, inl, inr}
pub use mathlib.Core.Bool.{Bool, true, false, ◌&&◌, ◌||◌, not}
pub use mathlib.Core.Option.{Option, none, some}
pub use mathlib.Core.List.{List, [], ◌∷◌, ◌++◌, map}
pub use native.Mathlib.Omega.{arith}
