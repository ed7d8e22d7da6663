-- ===== src/Plugins.antt =====
-- The calculator with plugins, les9_dynamic_libs/src/main.c: the list of library names is split, each
-- name is opened, and the menu calls the functions that were found. The dynamic linker and the numbers
-- are an argument; `none` is an access outside an array or a call of no function.
pub mod Names
pub mod Loading
pub mod Session
mod Examples
use summer_school.Base.{
  ℕ, zero, suc, ◌+◌, ◌-◌, ◌^◌, Bool, ◌||◌, ◌&&◌, Option, none, some, List, [], ◌∷◌, ◌++◌, ◌==◌, ltb,
  leb, if◌then◌else◌, get_elem?, store, ◌>>=◌, length,
}
use summer_school.Shell.{text_of}

-- What `dlopen` and `dlsym` answer: a handle for a name, the strings `description` and `funcName` of a
-- library, and the function of a name.
pub record Dl (Handle F : Type 0) : Type 0 where
  pub dlopen : List ℕ → Option Handle
  pub description : Handle → List ℕ
  pub func_name : Handle → List ℕ
  pub symbol : Handle → List ℕ → Option (F → F → F)

-- The entries of `funcDescription` and `function` at one index.
pub record Plugin (F : Type 0) : Type 0 where
  pub description : List ℕ
  pub function : Option (F → F → F)

-- The variables of the first loop; the length of `plugins` is `dlCount`, and `missed` are the names that
-- an error is printed for.
pub record Load (F : Type 0) : Type 0 where
  pub buff : List ℕ
  pub name_length : ℕ
  pub i : ℕ
  pub plugins : List (Plugin F)
  pub missed : List (List ℕ)

-- A request of the menu: `operation` as its 32 bits, and the operands.
pub record Request (F : Type 0) : Type 0 where
  pub operation : ℕ
  pub operand_a : F
  pub operand_b : F

-- The characters that end a name.
pub is_mark : ℕ → Bool
is_mark c = (c == b',') || (c == 32) || (c == 0)

module _ {Handle F : Type 0} (dl : Dl Handle F) where
  pub plugin_of : Handle → Plugin F
  plugin_of h = record { description = dl.description h; function = dl.symbol h (dl.func_name h) }

  pub note_opened : Option Handle → List ℕ → Load F → Load F
  unfolding plugin_of
  note_opened none name m = record m { missed = m.missed ++ name ∷ [] }
  note_opened (some h) name m = record m { plugins = m.plugins ++ plugin_of h ∷ [] }

  -- The name that `buff` holds ends, and its library is opened: `dlDesc` has 16 entries.
  pub end_name : Load F → Option (Load F)
  unfolding note_opened text_of
  end_name m = do
    ended ← store m.buff m.name_length 0
    name ← text_of ended
    let next = note_opened (dl.dlopen name) name (record m { buff = ended; name_length = 0 })
    if ltb (length m.plugins) 16 then some next else none

  -- `buff[nameLength++] = pluginsList[i++]`
  pub copy_char : List ℕ → Load F → Option (Load F)
  copy_char plugins_list m = do
    c ← get_elem? plugins_list m.i
    stored ← store m.buff m.name_length c
    some (record m { buff = stored; name_length = m.name_length + 1; i = m.i + 1 })

  -- The character behind a mark is copied without a look at it.
  pub scan : (fuel : ℕ) → List ℕ → Load F → Option (Load F)
  unfolding is_mark end_name copy_char
  scan zero plugins_list m = none
  scan (suc fuel) plugins_list m = do
    c ← get_elem? plugins_list m.i
    let over = end_name m
    let next = end_name m >>= λ e.
        copy_char plugins_list (record e { i = e.i + 1 }) >>= scan fuel plugins_list
    let copy = copy_char plugins_list m >>= scan fuel plugins_list
    if c == 0 then over else if is_mark c then next else copy

  -- The first loop of `main`; `junk` is what `buff` holds before it. Each round moves `i`, so that the
  -- list has no more rounds than bytes.
  pub load : (plugins_list junk : List ℕ) → Option (Load F)
  unfolding scan
  load plugins_list junk =
      scan (length plugins_list) plugins_list
        (record { buff = junk; name_length = 0; i = 0; plugins = []; missed = [] })

module _ {F : Type 0} where
  -- The test that stops the program, on a signed `operation`.
  pub is_unknown : List (Plugin F) → ℕ → Bool
  is_unknown plugins operation =
      (ltb (length plugins) operation && ltb operation (2 ^ 31))
      || (operation == 0)
      || leb (2 ^ 31) operation

  -- `function[operation - 1](operandA, operandB)`
  pub call_function : List (Plugin F) → Request F → Option F
  call_function plugins r = do
    p ← get_elem? plugins (r.operation - 1)
    f ← p.function
    some (f r.operand_a r.operand_b)

  -- The second loop: the results that are printed for these requests.
  pub menu : List (Plugin F) → List (Request F) → Option (List F)
  unfolding is_unknown call_function
  menu plugins [] = some []
  menu plugins (r ∷ rs) =
      let results = call_function plugins r >>= λ x. menu plugins rs >>= λ xs. some (x ∷ xs) in
      if is_unknown plugins r.operation then some [] else results

-- `main`, when the names and the requests have been typed.
pub main :
    {Handle F : Type 0}
    → Dl Handle F
    → (plugins_list junk : List ℕ) → List (Request F)
    → Option (List F)
unfolding load menu
main dl plugins_list junk requests = load dl plugins_list junk >>= λ m. menu m.plugins requests
