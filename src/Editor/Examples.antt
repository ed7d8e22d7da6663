-- ===== src/Editor/Examples.antt =====
-- The editor in a terminal of 24 rows and 80 columns.
use summer_school.Base.{
  refl, arith, List, [], ◌∷◌, ◌++◌, All, ℕ, zero, suc, ltb, ◌&&◌, if◌then◌else◌, length, ◌<◌, ◌≡◌,
  true, some, replicate,
}
use summer_school.Editor.Files.{done, save_key}
use summer_school.Editor.Files.Windows.{TextWindow}
use summer_school.Editor.Files.Saved.{rows_from, again, save_key_lem}
use summer_school.Editor.{Size, Key, down, right, edit, backspace}
use summer_school.Editor.Motions.{IsPlace, IsCall, edit-IsPlace, place}

abbrev terminal : Size
terminal = record { max_height = 24; max_width = 80 }

abbrev keys : List Key
keys = down ∷ right ∷ right ∷ backspace ∷ []

edit-IsPlace_example :
    IsPlace terminal
      (edit terminal keys (place 0 0)).0.tick_x
      (edit terminal keys (place 0 0)).0.tick_y
    × All (IsCall terminal) (edit terminal keys (place 0 0)).1
edit-IsPlace_example =
    edit-IsPlace terminal keys (place 0 0) (refl, (refl, (refl, (refl, tt))))
      (record { row = omega arith; column = omega arith })

-- A window of two rows and three columns; a state is the place of the cursor.
abbrev letters : (y x : ℕ) → List ℕ
letters zero x = b'a' ∷ b'b' ∷ 32 ∷ []
letters (suc y) x = b'c' ∷ 32 ∷ 32 ∷ []

small : TextWindow (ℕ × ℕ)
small = record {
  height = 2;
  width = 3;
  wmove = λ y x w. if ltb y 2 && ltb x 3 then (y, x) else w;
  winstr = λ w. letters w.0 w.1;
  cursor = λ w. w;
  text_from = λ w y x. letters y x;
  reads = λ w. refl;
  moves = λ y x w h k. ground arith;
  stays = λ y x w h. ground arith;
  keeps = λ y x w i j. refl;
}

letters-length : (y : ℕ) → length (letters y 0) < 999
letters-length zero = omega arith
letters-length (suc y) = omega arith

abbrev low : Size
low = record { max_height = 10; max_width = 5 }

save_key_lem_example :
    save_key small low (λ f. true) (b'f' ∷ []) (0, 0)
    ≡ some (done (b'f' ∷ []) (rows_from small 2 0 (0, 0) ++ again small 8 1 (0, 0)))
unfolding small
save_key_lem_example =
    save_key_lem small low (λ f. true) (b'f' ∷ []) (0, 0) refl (omega arith) (omega arith)
      letters-length (omega arith) refl

abbrev two_chunks : List (List ℕ)
two_chunks = replicate 13 b'x' ∷ (b'a' ∷ 0 ∷ b'b' ∷ []) ∷ []
