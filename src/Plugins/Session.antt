-- ===== src/Plugins/Session.antt =====
-- The menu behind the loop: les9_dynamic_libs/src/main.c, lines 48 to 73.
use summer_school.Base.{◌-◌, ◌<◌, ◌≡◌, some, List, [], ◌∷◌, get_elem?}
use summer_school.Plugins.{Plugin, Request}

module _ {F : Type 0} (plugins : List (Plugin F)) where
  -- The result of a request is that of the function found for its operation, counted from 1.
  pub record IsAnswer (r : Request F) (x : F) : Type 0 where
    pub p : Plugin F
    pub f : F → F → F
    pub counted : 0 < r.operation
    pub known : get_elem? plugins (r.operation - 1) ≡ some p
    pub linked : p.function ≡ some f
    pub result : x ≡ f r.operand_a r.operand_b

  abbrev pub requests : List (Request F × F) → List (Request F)
  requests [] = []
  requests (a ∷ as') = a.0 ∷ requests as'

  abbrev pub results : List (Request F × F) → List F
  results [] = []
  results (a ∷ as') = a.1 ∷ results as'
