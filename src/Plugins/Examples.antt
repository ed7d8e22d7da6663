-- ===== src/Plugins/Examples.antt =====
-- A list of three names, of which two are found.
use summer_school.Base.{
  ℕ, ◌+◌, ◌*◌, ◌≡◌, refl, Option, none, some, List, [], ◌∷◌, ◌++◌, replicate, store, ◌>>=◌,
  if◌then◌else◌, ◌==◌,
}
use summer_school.Plugins.{Dl, Plugin, Request, load}
use summer_school.Plugins.Names.{found, missed, behind}

-- A library for each name of one letter but x.
abbrev opens : List ℕ → Option ℕ
opens [] = none
opens (c ∷ []) = if c == b'x' then none else some c
opens (c ∷ d ∷ cs) = none

abbrev linked : ℕ → List ℕ → Option (ℕ → ℕ → ℕ)
linked h cs = if h == b'a' then some (λ x y. x + y) else some (λ x y. x * y)

abbrev linker : Dl ℕ ℕ
linker = record {
  dlopen = opens;
  description = λ h. h ∷ [];
  func_name = λ h. h ∷ [];
  symbol = linked;
}

abbrev rest_names : List (List ℕ)
rest_names = (b'x' ∷ []) ∷ (b'm' ∷ []) ∷ []

abbrev three_typed : List ℕ
three_typed = (b'a' ∷ []) ++ (behind rest_names ++ 0 ∷ [])

abbrev asked : ℕ → Request ℕ
asked n = record { operation = n; operand_a = 3; operand_b = 4 }

abbrev two_found : List (Plugin ℕ)
two_found = found linker ((b'a' ∷ []) ∷ rest_names)

abbrev two_answers : List (Request ℕ × ℕ)
two_answers = (asked 2, 12) ∷ (asked 2, 12) ∷ []

-- What is found and what is missed.
abbrev names_of : List ℕ → Option (List (List ℕ))
unfolding load
names_of typed = load linker typed (replicate 64 7) >>= λ m. some m.missed

-- Behind a comma the next comma is a part of the name.
two_commas : names_of (b'a' ∷ b',' ∷ b',' ∷ b'a' ∷ 0 ∷ []) ≡ some ((b',' ∷ b'a' ∷ []) ∷ [])
unfolding names_of store
two_commas = refl

-- A comma at the end makes the loop run past the zero byte.
comma_last : names_of (b'a' ∷ b',' ∷ 0 ∷ []) ≡ none
unfolding names_of store
comma_last = refl

-- A name of 64 characters is stored outside `buff`.
long_name : names_of (replicate 64 b'a' ++ 0 ∷ []) ≡ none
unfolding names_of store
long_name = refl
