-- ===== src/QueueChat/Client.antt =====
-- The keyboard of a client, les16_IPC_objects/src/client.c: the name of the user, and the lines that
-- are posted. `none` is an access outside a buffer or a read behind the end of what is typed.
pub mod Lines
use summer_school.Base.{
  ℕ, zero, suc, ◌+◌, ◌-◌, Option, none, some, List, [], ◌∷◌, ◌==◌, if◌then◌else◌, store, ◌>>=◌,
  strlen, length, ltb, overwrite, ◌++◌,
}
use summer_school.Shell.{text_of, fill_line}
use summer_school.SharedChat.{same_text, quit}
use summer_school.QueueChat.{Msgbuf}

-- The inner loop of `screen_reader`: `i` when it ends, what is left of the input, and the buffer.
pub fill_text : (left i : ℕ) → (input buff : List ℕ) → Option (ℕ × List ℕ × List ℕ)
fill_text zero i input buff = some (i, input, buff)
fill_text (suc left) i [] buff = none
fill_text (suc left) i (c ∷ input) buff = do
  stored ← store buff i c
  let rest = fill_text left (i + 1) input stored
  if c == 10 then some (i, input, stored) else rest

-- A round of `screen_reader` up to `strcmp`: the text, what is left, and the buffer.
unfoldable pub next_text : (input buff : List ℕ) → Option (List ℕ × List ℕ × List ℕ)
unfolding fill_text text_of
next_text input buff = do
  (i, left, filled) ← fill_text 254 0 input buff
  ended ← store filled (i + 1) 0
  text ← text_of ended
  some (text, left, ended)

-- `screen_reader`: the messages that go to the queue `middle_desc`, and what is left when it stops. A
-- round takes a character at least, so that the input is fuel enough.
pub screen_reader : (fuel : ℕ) → (username input buff : List ℕ) → Option (List Msgbuf × List ℕ)
unfolding next_text same_text
screen_reader zero username input buff = none
screen_reader (suc fuel) username input buff = do
  (text, left, ended) ← next_text input buff
  cleared ← store ended 0 0
  let message : Msgbuf = record { username = username; mtext = text }
  let more = screen_reader fuel username left cleared >>= λ r. some (message ∷ r.0, r.1)
  if same_text text quit then some ([], left) else more

-- `my_getline`, with what `malloc` leaves in its buffer.
pub my_getline : (input junk : List ℕ) → Option (List ℕ × List ℕ)
unfolding fill_line
my_getline input junk = fill_line 255 0 input junk

-- The name without its line feed, and its copy into the 32 bytes of a message.
pub user_name : (input junk : List ℕ) → Option (List ℕ × List ℕ)
unfolding my_getline text_of
user_name input junk = do
  (line, left) ← my_getline input junk
  n ← strlen line
  cut ← store line (n - 1) 0
  name ← text_of cut
  if ltb (length name) 32 then some (name, left) else none

-- `main`, with the queues opened: the message to `service_desc`, and those to `middle_desc`. `junk` and
-- `buff` are what the two buffers hold before.
pub client : (input junk buff : List ℕ) → Option (Msgbuf × List Msgbuf)
unfolding user_name screen_reader
client input junk buff = do
  (name, left) ← user_name input junk
  (posted, rest) ← screen_reader (length left) name left buff
  some (record { username = name; mtext = [] }, posted)
