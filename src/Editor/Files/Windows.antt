-- ===== src/Editor/Files/Windows.antt =====
-- What the editor uses of the windows of ncurses (les10_my_nano/src/main.c).
use summer_school.Base.{ℕ, List, ◌≡◌, ◌<◌, ◌≤◌}

-- `wmove` fails and moves nothing when the place is not in the window; it changes no text. `winstr`
-- gives the row of the cursor, from the column of the cursor on.
pub record TextWindow (W : Type 0) : Type 0 where
  pub height : ℕ
  pub width : ℕ
  pub wmove : (y x : ℕ) → W → W
  pub winstr : W → List ℕ
  pub cursor : W → ℕ × ℕ
  pub text_from : W → (y x : ℕ) → List ℕ
  pub reads : (w : W) → winstr w ≡ text_from w (cursor w).0 (cursor w).1
  pub moves : (y x : ℕ) (w : W) → y < height → x < width → cursor (wmove y x w) ≡ (y, x)
  pub stays : (y x : ℕ) (w : W) → height ≤ y → cursor (wmove y x w) ≡ cursor w
  pub keeps : (y x : ℕ) (w : W) (i j : ℕ) → text_from (wmove y x w) i j ≡ text_from w i j
