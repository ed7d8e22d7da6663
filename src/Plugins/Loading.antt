-- ===== src/Plugins/Loading.antt =====
-- The whole list of names: les9_dynamic_libs/src/main.c, lines 29 to 46.
use summer_school.Base.{ℕ, ◌≤◌, Option, none, some, List, [], ◌∷◌, length, arith, length-append}
use summer_school.Plugins.Names.{found_in, found}
use summer_school.Plugins.{Dl}

module _ {Handle F : Type 0} (dl : Dl Handle F) where
  found_in_le : (o : Option Handle) → length (found_in dl o) ≤ 1
  found_in_le none = omega arith
  found_in_le (some h) = omega arith

  pub length-found : (names : List (List ℕ)) → length (found dl names) ≤ length names
  length-found [] = omega arith
  length-found (name ∷ names) = omega (
    arith,
    length-found names,
    found_in_le (dl.dlopen name),
    length-append {0} (found_in dl (dl.dlopen name)) (found dl names),
  )
