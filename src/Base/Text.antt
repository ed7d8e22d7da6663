-- ===== src/Base/Text.antt =====
-- C strings: characters in a buffer, up to a zero byte.
use mathlib.Core.Path.{◌≡◌, refl, ap}
use mathlib.Core.Logic.{◌≢◌}
use mathlib.Core.Option.{Option, none, some}
use mathlib.Core.List.{List, [], ◌∷◌, ◌++◌}
use native.Mathlib.Omega.{arith}
use Prim.Native.Nat.{ℕ, suc}
use summer_school.Base.Tests.{◌==◌, if◌then◌else◌}
use summer_school.Base.Lists.{length, All}
use summer_school.Base.Memory.{◌>>=◌}

-- `strlen`; `none` is a read behind a buffer that holds no zero byte.
unfoldable pub strlen : List ℕ → Option ℕ
strlen [] = none
strlen (c ∷ buffer) =
    let rest = strlen buffer >>= λ n. some (suc n) in if c == 0 then some 0 else rest

-- The first bytes of a buffer replaced, as by `recvfrom` or `strcpy`; the rest keeps its content.
unfoldable pub overwrite : List ℕ → List ℕ → List ℕ
overwrite [] content = []
overwrite (c ∷ buffer) [] = c ∷ buffer
overwrite (c ∷ buffer) (x ∷ content) = x ∷ overwrite buffer content

-- The characters of a C string hold no zero byte.
abbrev pub IsText : List ℕ → Type 0
IsText = All (λ c. c ≢ 0)

pub strlen-text :
    (text rest : List ℕ) → IsText text → strlen (text ++ 0 ∷ rest) ≡ some (length text)
unfolding strlen
strlen-text [] rest t = refl
strlen-text (c ∷ text) rest t = ground (arith, t.0, strlen-text text rest t.1)

pub length-overwrite : (buffer content : List ℕ) → length (overwrite buffer content) ≡ length buffer
unfolding overwrite
length-overwrite [] content = refl
length-overwrite (c ∷ buffer) [] = refl
length-overwrite (c ∷ buffer) (x ∷ content) = ap suc (length-overwrite buffer content)
