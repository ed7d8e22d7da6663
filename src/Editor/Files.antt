-- ===== src/Editor/Files.antt =====
-- Files of the editor, les10_my_nano/src/main.c: `funcWrite`, `winRead` and the keys that call them. The
-- text window is an argument; `none` is an access outside a buffer.
pub mod Windows
pub mod Saved
pub mod Shown
use summer_school.Base.{
  ℕ, zero, suc, ◌+◌, Option, none, some, List, [], ◌∷◌, ◌++◌, if◌then◌else◌, store, ◌>>=◌, length,
  ltb, overwrite, Bool, true, false, replicate,
}
use summer_school.Shell.{text_of}
use summer_school.Editor.{Size}
use summer_school.Editor.Files.Windows.{TextWindow}

module _ {W : Type 0} (window : TextWindow W) where
  -- The loop of `funcWrite` with the rounds that are left: what goes to the file. `winstr` stores the row
  -- and a zero byte in a buffer of 999 bytes.
  pub write_rows : (left i : ℕ) → W → Option (List ℕ)
  write_rows zero i w = some []
  write_rows (suc left) i w =
      let moved = window.wmove i 0 w in
      let rest =
        write_rows left (i + 1) moved >>= λ more. some (window.winstr moved ++ 10 ∷ more) in
      if ltb (length (window.winstr moved)) 999 then rest else none

  pub func_write : (win_height : ℕ) → W → Option (List ℕ)
  unfolding write_rows
  func_write win_height w = write_rows win_height 0 w

-- The answer of a `read` of 13 bytes: some bytes, or an error.
pub data Answer : Type 0 where
  failed : Answer
  bytes : List ℕ → Answer

-- The loop of `winRead`, over the answers: the text that is printed in the window. An error is -1, an
-- index in front of `buffer`.
pub read_loop : List Answer → (buffer : List ℕ) → Option (List ℕ)
unfolding text_of
read_loop [] buffer = some []
read_loop (failed ∷ answers) buffer = none
read_loop (bytes [] ∷ answers) buffer = some []
read_loop (bytes (c ∷ cs) ∷ answers) buffer = do
  ended ← store (overwrite buffer (c ∷ cs)) (length (c ∷ cs)) 0
  text ← text_of ended
  cleared ← store ended 0 0
  more ← read_loop answers cleared
  some (text ++ more)

-- `winRead`; `junk` is what its buffer of 15 bytes holds before.
pub win_read : List Answer → (junk : List ℕ) → Option (List ℕ)
unfolding read_loop
win_read answers junk = read_loop answers junk

-- What a key does: a message that no file is opened, or the text that is shown or written.
pub data Done : Type 0 where
  refused : (filename : List ℕ) → Done
  done : (filename text : List ℕ) → Done

abbrev pub done_with : (filename : List ℕ) → Option (List ℕ) → Option Done
done_with filename text = text >>= λ t. some (done filename t)

pub open_with : (filename junk : List ℕ) → Option (List Answer) → Option Done
unfolding win_read
open_with filename junk none = some (refused filename)
open_with filename junk (some answers) = done_with filename (win_read answers junk)

-- CTRL('W'), with the file name typed and the answers of the file it opens.
pub open_key : (List ℕ → Option (List Answer)) → (filename junk : List ℕ) → Option Done
unfolding open_with
open_key files filename junk =
    if ltb (length filename) 55 then open_with filename junk (files filename) else none

-- CTRL('E'), with the file name typed and whether the file is created: `maxHeight` rows are written.
pub save_key :
    {W : Type 0} → TextWindow W → Size → (List ℕ → Bool) → (filename : List ℕ) → W → Option Done
unfolding func_write
save_key window z creates filename w =
    let saved = done_with filename (func_write window z.max_height w) in
    let named = if creates filename then saved else some (refused filename) in
    if ltb (length filename) 55 then named else none
