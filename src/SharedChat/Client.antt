-- ===== src/SharedChat/Client.antt =====
-- The buffers of a client, les17_shared_memory/src/client.c: the nickname, a line that is typed, and the
-- text that goes to the shared memory. `none` is an access outside a buffer or a read behind the end of
-- what is typed.
pub mod Texts
use summer_school.Base.{
  ℕ, zero, suc, ◌+◌, ◌-◌, Option, none, some, List, [], ◌∷◌, ◌++◌, if◌then◌else◌, store, ◌>>=◌,
  strlen, length, ltb, leb, overwrite, ◌&&◌, Bool,
}
use summer_school.Shell.{text_of, fill_line}
use summer_school.SharedChat.{same_text, quit}

-- `my_getline`, with what `malloc` leaves in its buffer.
pub my_getline : (input junk : List ℕ) → Option (List ℕ × List ℕ)
unfolding fill_line
my_getline input junk = fill_line 255 0 input junk

-- The nickname as `main` changes it: a colon and a space take the place of the line feed.
pub nickname_of : (line : List ℕ) → Option (List ℕ)
nickname_of line = do
  n ← strlen line
  colon ← store line (n - 1) b':'
  space ← store colon n 32
  store space (n + 1) 0

-- A round of `reader_thread` behind `semop`: both texts in its buffer of 1024 bytes, and their copy to
-- the shared memory.
pub publish : (nickname msg public_buff : List ℕ) → Option (List ℕ)
unfolding text_of
publish nickname msg public_buff = do
  name ← text_of nickname
  line ← text_of msg
  let text = name ++ line
  let fits = ltb (length text) 1024 && ltb (length text) (length public_buff)
  if fits then some (overwrite public_buff (text ++ 0 ∷ [])) else none

-- `isExit`
pub is_exit : (msg : List ℕ) → Option Bool
unfolding text_of same_text
is_exit msg = text_of msg >>= λ line. some (same_text line quit)

-- What is typed first is the nickname, then a line: the shared memory, the test for the end, and the
-- input that is left.
pub first_line : (input junk junk' public_buff : List ℕ) → Option (List ℕ × Bool × List ℕ)
first_line input junk junk' public_buff = do
  (name, behind_name) ← my_getline input junk
  nickname ← nickname_of name
  (msg, left) ← my_getline behind_name junk'
  exits ← is_exit msg
  published ← publish nickname msg public_buff
  some (published, exits, left)
