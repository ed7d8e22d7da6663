-- ===== src/Base.antt =====
-- Names shared by every module: the libraries' names passed on, tests, lists and store updates.
mod Tests
mod Lists
mod Words
mod Memory
mod Family
mod Text
pub use Tests.*
pub use Lists.*
pub use Words.*
unfoldable pub use Memory.{store}
unfoldable pub use Family.*
unfoldable pub use Text.{strlen, overwrite}
pub use Text.{IsText, strlen-text, length-overwrite}
pub use Memory.{
  ◌>>=◌, store-eq, store_out, get_elem?-append, set-append, store-append, store-length,
}
pub use Prim.Native.Nat.{
  ℕ, zero, suc, ◌+◌, ◌-◌, ◌*◌, ◌/◌, ◌%◌, ◌^◌, ◌≤◌, ◌<◌, min, compare, Ordering,
}
pub use mathlib.Core.Path.{◌≡◌, refl, sym, ap, subst, ◌∙◌, ◌≡⟨◌⟩◌, ◌∎}
pub use mathlib.Core.Logic.{◌≢◌, ◌↔◌, ◌⊎◌, inl, inr}
pub use mathlib.Core.Bool.{Bool, true, false, not, ◌&&◌, ◌||◌}
pub use mathlib.Core.Option.{Option, none, some, some-injective, none-ne-some}
pub use mathlib.Core.List.{List, [], ◌∷◌, ◌++◌, map}
pub use native.Mathlib.Omega.{arith}
unfoldable pub use native.Mathlib.Decide.{dec_lt, dec_le, ℕ_discrete}
