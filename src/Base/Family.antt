-- ===== src/Base/Family.antt =====
-- Arrays of a fixed size as functions on indices: one entry changed, and sums over the first ones.
use mathlib.Core.Path.{◌≡◌, refl}
use native.Mathlib.Omega.{arith}
use native.Mathlib.Decide.{ℕ_discrete}
use Prim.Native.Nat.{ℕ, zero, suc, ◌+◌, ◌≤◌, ◌<◌}
use summer_school.Base.Tests.{◌==◌, if◌then◌else◌}

abbrev pub put {ℓ} : {A : Type ℓ} → (ℕ → A) → ℕ → A → ℕ → A
put f i a j = if i == j then a else f j

unfoldable pub sum_of : ℕ → (ℕ → ℕ) → ℕ
sum_of zero f = 0
sum_of (suc n) f = f n + sum_of n f

sum_of-put_above : (n : ℕ) (f : ℕ → ℕ) (i v : ℕ) → n ≤ i → sum_of n (put f i v) ≡ sum_of n f
unfolding sum_of
sum_of-put_above zero f i v h = refl
sum_of-put_above (suc n) f i v h = ground (arith, sum_of-put_above n f i v)

-- Exchanging one entry exchanges it in the sum.
pub sum_of-put : (n : ℕ) (f : ℕ → ℕ) (i v : ℕ) → i < n → sum_of n (put f i v) + f i ≡ sum_of n f + v
unfolding sum_of
sum_of-put zero f i v h = absurd (omega arith)
sum_of-put (suc n) f i v h = elim (ℕ_discrete i n) [
  | yes last ↦ ground (arith, sum_of-put_above n f i v)
  | no below ↦ ground (arith, sum_of-put n f i v)
]
