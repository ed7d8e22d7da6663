-- ===== src/Editor.antt =====
-- The key loop of the editor, les10_my_nano/src/main.c: the two counters of the cursor, `tickX` for
-- the row and `tickY` for the column, and what is done to the window. The window itself is the
-- library's. The counters stay far below the range of `int`.
pub mod Motions
pub mod Files
mod Examples
use summer_school.Base.{
  ℕ, zero, suc, ◌+◌, ◌-◌, Bool, true, false, List, [], ◌∷◌, ◌++◌, leb, ◌==◌, if◌then◌else◌,
}

-- `maxHeight` and `maxWidth`, the size of the terminal.
pub record Size : Type 0 where
  pub max_height : ℕ
  pub max_width : ℕ

-- The height of the text window, in a terminal of at least 8 rows: `HINT_WINDOW_HEIGHT + 4` rows go
-- to the hint and the borders.
abbrev pub main_height : Size → ℕ
main_height z = z.max_height - (4 + 4)

-- The calls on the text window: `wmove`, a character, a line feed, a file shown, a row read by
-- `winstr` and written to a file.
pub data Call : Type 0 where
  wmove : (row column : ℕ) → Call
  put_char : ℕ → Call
  new_line : Call
  load : Call
  write_row : Call
  farewell : Call

-- A key; CTRL('W') and CTRL('E') with whether their `open` succeeds.
pub data Key : Type 0 where
  down up left right backspace : Key
  ctrl_w : (opened : Bool) → Key
  ctrl_e : (opened : Bool) → Key
  ctrl_r : Key
  new_line_key : Key
  char : ℕ → Key

pub record Cursor : Type 0 where
  pub tick_x : ℕ
  pub tick_y : ℕ
  pub is_interrupted : Bool

abbrev pub at_start : Cursor
at_start = record { tick_x = 0; tick_y = 0; is_interrupted = false }

abbrev here : Cursor → Call
here c = wmove c.tick_x c.tick_y

-- The loop of `funcWrite`, with the rounds to go.
pub saving : (rounds i : ℕ) → List Call
saving zero i = []
saving (suc rounds) i = wmove i 0 ∷ write_row ∷ saving rounds (i + 1)

-- The `switch (sym)`. A file is saved with the height of the terminal.
pub press : Size → Key → Cursor → Cursor × List Call
press z down c =
    let x = if leb (main_height z) (c.tick_x + 2) then main_height z - 1 else c.tick_x + 1 in
    let c' : Cursor = record c { tick_x = x } in (c', here c' ∷ [])
press z up c =
    let c' : Cursor = record c { tick_x = c.tick_x - 1 } in
    if c.tick_x == 0 then (c, []) else (c', here c' ∷ [])
press z left c =
    let c' : Cursor = record c { tick_y = c.tick_y - 1 } in
    if c.tick_y == 0 then (c, []) else (c', here c' ∷ [])
press z right c =
    let c' : Cursor = record c { tick_y = c.tick_y + 1 } in
    if c.tick_y + 3 == z.max_width then (c, []) else (c', here c' ∷ [])
press z backspace c =
    let c' : Cursor = record c { tick_y = c.tick_y - 1 } in
    (c', here c' ∷ put_char 32 ∷ here c' ∷ [])
press z (ctrl_w opened) c = if opened then (c, load ∷ wmove 0 0 ∷ []) else (c, [])
press z (ctrl_e opened) c = if opened then (c, saving z.max_height 0) else (c, [])
press z ctrl_r c = (record c { is_interrupted = true }, farewell ∷ [])
press z new_line_key c =
    let x = c.tick_x + 1 in
    let x' = if x + 1 == z.max_width then z.max_width - 1 else x in
    (record c { tick_x = x'; tick_y = 0 }, new_line ∷ [])
press z (char sym) c =
    let c' : Cursor = record c { tick_y = c.tick_y + 1 } in
    if leb z.max_width (c'.tick_y + 2)
    then (c', put_char sym ∷ [])
    else (c', put_char sym ∷ here c' ∷ [])

-- `while(!isInterrupted)`, over the keys.
pub edit : Size → List Key → Cursor → Cursor × List Call
edit z [] c = (c, [])
edit z (k ∷ keys) c =
    let (c₁, first) = press z k c in
    let (c₂, more) = edit z keys c₁ in if c.is_interrupted then (c, []) else (c₂, first ++ more)
