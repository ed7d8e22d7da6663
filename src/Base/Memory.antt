-- ===== src/Base/Memory.antt =====
-- Checked access to C arrays: `none` is an access out of bounds, which C leaves undefined.
use mathlib.Core.Path.{◌≡◌, ◌∙◌, refl}
use mathlib.Core.Option.{Option, none, some}
use mathlib.Core.List.{List, [], ◌∷◌, ◌++◌}
use native.Mathlib.Omega.{arith}
use Prim.Native.Nat.{ℕ, ◌≤◌, ◌<◌}
use summer_school.Base.Tests.{ltb, if◌then◌else◌}
use summer_school.Base.Lists.{length, get_elem?, set, length-append, length-set}

infixl 5 ◌>>=◌
abbrev pub ◌>>=◌ {ℓ κ} : {A : Type ℓ} {B : Type κ} → Option A → (A → Option B) → Option B
none >>= k = none
some a >>= k = k a

module _ {ℓ} {A : Type ℓ} where
  unfoldable pub store : List A → ℕ → A → Option (List A)
  store xs i v = if ltb i (length xs) then some (set xs i v) else none

  pub store-eq : (xs : List A) (i : ℕ) (v : A) → i < length xs → store xs i v ≡ some (set xs i v)
  unfolding store
  store-eq xs i v h = ground arith

  pub store_out : (xs : List A) (i : ℕ) (v : A) → length xs ≤ i → store xs i v ≡ none
  unfolding store
  store_out xs i v h = ground arith

  -- The element behind a prefix.
  pub get_elem?-append : (xs ys : List A) (y : A) → get_elem? (xs ++ y ∷ ys) (length xs) ≡ some y
  get_elem?-append [] ys y = refl
  get_elem?-append (x ∷ xs) ys y = get_elem?-append xs ys y

  -- A store at the element behind a prefix.
  pub set-append : (xs ys : List A) (y v : A) → set (xs ++ y ∷ ys) (length xs) v ≡ xs ++ v ∷ ys
  set-append [] ys y v = refl
  set-append (x ∷ xs) ys y v = λ i. x ∷ set-append xs ys y v i

  pub store-append :
      (xs ys : List A) (y v : A) → store (xs ++ y ∷ ys) (length xs) v ≡ some (xs ++ v ∷ ys)
  store-append xs ys y v =
      store-eq (xs ++ y ∷ ys) (length xs) v (omega (arith, length-append {ℓ} xs (y ∷ ys))) ∙ λ i.
      some (set-append xs ys y v i)

  -- A checked store keeps the length.
  pub store-length :
      (xs : List A) (i : ℕ) (v : A) {ys : List A} → store xs i v ≡ some ys → length ys ≡ length xs
  unfolding store
  store-length xs i v h = ground (arith, length-set xs i v)
