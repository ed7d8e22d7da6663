-- ===== src/Editor/Files/Saved.antt =====
-- What the editor writes to a file: `funcWrite` of les10_my_nano/src/main.c.
use summer_school.Base.{
  ℕ, zero, suc, ◌+◌, ◌-◌, ◌≤◌, ◌<◌, ◌≡◌, refl, sym, ap, ◌∙◌, some, List, [], ◌∷◌, ◌++◌, true, Bool,
  ltb, length, arith,
}
use mathlib.Core.List.{append_assoc}
use summer_school.Editor.{Size, main_height}
use summer_school.Editor.Files.Windows.{TextWindow}
use summer_school.Editor.Files.{write_rows, func_write, done, save_key}

module _ {W : Type 0} (window : TextWindow W) where
  -- The rows from `i` on, each with a line feed.
  abbrev pub rows_from : (left i : ℕ) → W → List ℕ
  rows_from zero i w = []
  rows_from (suc left) i w = window.text_from w i 0 ++ 10 ∷ rows_from left (i + 1) w

  -- A row again and again.
  abbrev pub again : (left i : ℕ) → W → List ℕ
  again zero i w = []
  again (suc left) i w = window.text_from w i 0 ++ 10 ∷ again left i w

  rows_from-wmove :
      (left i y x : ℕ) (w : W) → rows_from left i (window.wmove y x w) ≡ rows_from left i w
  rows_from-wmove zero i y x w = refl
  rows_from-wmove (suc left) i y x w = rw (window.keeps, rows_from-wmove left (i + 1) y x w) refl

  again-wmove : (left i y x : ℕ) (w : W) → again left i (window.wmove y x w) ≡ again left i w
  again-wmove zero i y x w = refl
  again-wmove (suc left) i y x w = rw (window.keeps, again-wmove left i y x w) refl

  -- No row is as long as the buffer.
  abbrev pub IsNarrow : W → Type 0
  IsNarrow w = (y : ℕ) → length (window.text_from w y 0) < 999

  winstr-wmove :
      (y : ℕ) (w : W)
      → y < window.height
      → 0 < window.width
      → window.winstr (window.wmove y 0 w) ≡ window.text_from w y 0
  winstr-wmove y w h k = rw (window.reads, window.moves y 0 w h k, window.keeps) refl

  -- Below the window the cursor stays in the last row that was reached.
  write_rows-below :
      (left i y : ℕ) (w : W)
      → window.height ≤ i
      → window.cursor w ≡ (y, 0)
      → IsNarrow w
      → write_rows window left i w ≡ some (again left y w)
  unfolding write_rows
  write_rows-below zero i y w h c n = refl
  write_rows-below (suc left) i y w h c n =
      let moved = window.wmove i 0 w in
      let row : window.winstr moved ≡ window.text_from w y 0 =
        rw (window.reads, window.stays i 0 w h, c, window.keeps) refl in
      let fits : ltb (length (window.text_from w y 0)) 999 ≡ true = ground (arith, n y) in
      let next =
        write_rows-below left (i + 1) y moved (omega arith) (window.stays i 0 w h ∙ c)
          (λ y'. rw window.keeps (n y')) in
      rw (row, fits, next, again-wmove left y i 0 w) refl

  -- The rows of the window, and then the last one again.
  write_rows-within :
      (left extra i n : ℕ) (w : W)
      → n ≡ suc left + extra
      → i + suc left ≡ window.height
      → 0 < window.width
      → IsNarrow w
      → write_rows window n i w
        ≡ some (rows_from (suc left) i w ++ again extra (window.height - 1) w)
  unfolding write_rows
  write_rows-within left extra i zero w e h k n = absurd (omega arith)
  write_rows-within zero extra i (suc m) w e h k n =
      let moved = window.wmove i 0 w in
      let row = winstr-wmove i w (omega arith) k in
      let fits : ltb (length (window.text_from w i 0)) 999 ≡ true = ground (arith, n i) in
      let next =
        write_rows-below m (i + 1) i moved (omega arith) (window.moves i 0 w (omega arith) k)
          (λ y'. rw window.keeps (n y'))
        ∙ ap some (again-wmove m i i 0 w) in
      let same : again m i w ≡ again extra (window.height - 1) w =
        ap (λ j. again j i w) {x = m} {y = extra} (omega arith)
        ∙ ap (λ j. again extra j w) {x = i} {y = window.height - 1} (omega arith) in
      rw (row, fits, next)
        (ap (λ l. some (window.text_from w i 0 ++ 10 ∷ l)) same
          ∙ ap some (
              sym (
                append_assoc (window.text_from w i 0) (10 ∷ [])
                  (again extra (window.height - 1) w))))
  write_rows-within (suc left) extra i (suc m) w e h k n =
      let moved = window.wmove i 0 w in
      let row = winstr-wmove i w (omega arith) k in
      let fits : ltb (length (window.text_from w i 0)) 999 ≡ true = ground (arith, n i) in
      let next =
        write_rows-within left extra (i + 1) m moved (omega arith) (omega arith) k
          (λ y'. rw window.keeps (n y'))
        ∙ ap (λ l. some (l ++ again extra (window.height - 1) moved))
            (rows_from-wmove (suc left) (i + 1) i 0 w)
        ∙ ap (λ l. some (rows_from (suc left) (i + 1) w ++ l))
            (again-wmove extra (window.height - 1) i 0 w) in
      rw (row, fits, next)
        (ap some (
          sym (
            append_assoc (window.text_from w i 0) (10 ∷ rows_from (suc left) (i + 1) w)
              (again extra (window.height - 1) w))))

  -- CTRL('E') passes the height of the terminal for that of the text window: what is saved are the rows
  -- of the window, each with a line feed, and then the last row eight times more. The name is short
  -- enough, the file is created, and no row is as long as the buffer.
  pub save_key_lem :
      (z : Size) (creates : List ℕ → Bool) (filename : List ℕ) (w : W)
      → window.height ≡ main_height z
      → 0 < window.height
      → 0 < window.width
      → IsNarrow w
      → length filename < 55
      → creates filename ≡ true
      → save_key window z creates filename w
        ≡ some (done filename (rows_from (main_height z) 0 w ++ again 8 (main_height z - 1) w))
  unfolding save_key func_write
  save_key_lem z creates filename w e h k n f c =
      let m = window.height - 1 in
      let fits : ltb (length filename) 55 ≡ true = ground arith in
      let rows =
        write_rows-within m 8 0 z.max_height w (omega arith) (omega arith) k n
        ∙ ap (λ j. some (rows_from j 0 w ++ again 8 m w)) {x = suc m} {y = main_height z}
            (omega arith)
        ∙ ap (λ j. some (rows_from (main_height z) 0 w ++ again 8 (j - 1) w)) e in
      rw (fits, c, rows) refl
