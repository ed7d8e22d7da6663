-- ===== src/SharedChat.antt =====
-- The chat over shared memory, les17_shared_memory/src/server.c and client.c: twelve semaphores around
-- one text. `semop` is an argument: `none` is a call that sleeps. The texts hold no zero byte.
pub mod Semaphores
pub mod Counts
pub mod ServerMoves
pub mod ClientMoves
pub mod Bounds
pub mod Delivery
pub mod Rounds
pub mod Client
pub mod Same
mod Examples
use summer_school.Base.{
  ℕ, zero, suc, ◌+◌, Bool, true, false, ◌&&◌, ◌||◌, Option, none, some, List, [], ◌∷◌, ◌++◌, ◌==◌,
  ltb, if◌then◌else◌, put,
}

-- `struct sembuf`, with the sign of `sem_op` told apart.
pub data Sembuf : Type 0 where
  up down : (sem_num amount : ℕ) → Sembuf
  wait_zero : (sem_num : ℕ) → Sembuf

abbrev pub Semop : Type 0
Semop = List Sembuf → (ℕ → ℕ) → Option (ℕ → ℕ)

abbrev pub max_clients : ℕ
max_clients = 10

-- `"quit\n"`
abbrev pub quit : List ℕ
quit = b'q' ∷ b'u' ∷ b'i' ∷ b't' ∷ 10 ∷ []

-- `"quit"`
abbrev pub quit_bare : List ℕ
quit_bare = b'q' ∷ b'u' ∷ b'i' ∷ b't' ∷ []

-- `!strcmp`
unfoldable pub same_text : List ℕ → List ℕ → Bool
same_text [] [] = true
same_text [] (y ∷ ys) = false
same_text (x ∷ xs) [] = false
same_text (x ∷ xs) (y ∷ ys) = (x == y) && same_text xs ys

-- Where the server is: in the first `semop`, before the tests for the end, in the loop, after `break`.
pub data Server : Type 0 where
  listening checking stopped : Server
  raising : (i : ℕ) → Server

-- Where the `reader_thread` of a client is: in `my_getline`, in `semop`, before `strcpy` to the shared
-- memory, after its loop.
pub data Reader : Type 0 where
  typing gone : Reader
  waiting writing : (msg : List ℕ) → Reader

-- `busy` says of a client's `drawer_thread` that it is between `semop` and `printf`; `screen` is what
-- they have printed, with the number of the client. `messages` counts the lines "message!" of the
-- server, and `entered` the lines that readers have got past their `semop`.
pub record World : Type 0 where
  pub sems : ℕ → ℕ
  pub buffer : List ℕ
  pub server : Server
  pub reader : ℕ → Reader
  pub busy : ℕ → Bool
  pub screen : List (ℕ × List ℕ)
  pub messages : ℕ
  pub entered : ℕ

-- The two `semctl` calls of the server, on new semaphores.
unfoldable pub start : (buffer : List ℕ) → World
start text = record {
  sems = λ i. if i == 0 then 2 else 0;
  buffer = text;
  server = listening;
  reader = λ c. typing;
  busy = λ c. false;
  screen = [];
  messages = 0;
  entered = 0;
}

-- Who moves, the readers and drawers by the number of their client, a reader with the line typed.
pub data Move : Type 0 where
  server_moves : Move
  types : (client : ℕ) → (msg : List ℕ) → Move
  enters writes draws : (client : ℕ) → Move

-- A `semop` that sleeps leaves its thread there; else the thread goes on with the new values.
abbrev pub after : Option (ℕ → ℕ) → World → ((ℕ → ℕ) → World) → World
after none w goes_on = w
after (some v) w goes_on = goes_on v

module _ (semop : Semop) (nickname : ℕ → List ℕ) where
  pub listen : World → World
  listen w =
      after (semop (down 1 1 ∷ wait_zero 1 ∷ up 1 1 ∷ []) w.sems) w
        λ v. record w { sems = v; server = checking; messages = w.messages + 1 }

  -- The two tests for the end.
  pub check : World → World
  unfolding same_text
  check w =
      if same_text w.buffer quit || same_text w.buffer quit_bare
      then record w { server = stopped }
      else record w { server = raising 2 }

  -- The `for` loop over the clients, and the `semop` after it.
  pub raise : ℕ → World → World
  raise i w =
      let next =
        after (semop (up i 1 ∷ []) w.sems) w λ v. record w { sems = v; server = raising (i + 1) } in
      let release =
        after (semop (down 1 1 ∷ []) w.sems) w λ v. record w { sems = v; server = listening } in
      if ltb i (2 + max_clients) then next else release

  pub server_at : Server → World → World
  unfolding listen check raise
  server_at listening w = listen w
  server_at checking w = check w
  server_at stopped w = w
  server_at (raising i) w = raise i w

  -- `my_getline` of a client.
  pub type_line : Reader → ℕ → (msg : List ℕ) → World → World
  type_line typing c msg w = record w { reader = put w.reader c (waiting msg) }
  type_line _ c msg w = w

  -- The `semop` of the reader.
  pub enter : Reader → ℕ → World → World
  enter (waiting msg) c w =
      after (semop (wait_zero 1 ∷ up 1 1 ∷ []) w.sems) w
        λ v. record w { sems = v; reader = put w.reader c (writing msg); entered = w.entered + 1 }
  enter _ c w = w

  -- The text goes to the shared memory, and `isExit` is tested.
  pub write : Reader → ℕ → World → World
  unfolding same_text
  write (writing msg) c w = record w {
    buffer = nickname c ++ msg;
    reader = put w.reader c (if same_text msg quit then gone else typing);
  }
  write _ c w = w

  -- The loop of the drawer: its `semop`, or its `printf`.
  pub draw : ℕ → World → World
  draw c w =
      let wake =
        after (semop (down c 1 ∷ []) w.sems) w
          λ v. record w { sems = v; busy = put w.busy c true } in
      let show = record w { screen = w.screen ++ (c, w.buffer) ∷ []; busy = put w.busy c false } in
      if w.busy c then show else wake

  pub step : Move → World → World
  unfolding server_at type_line enter write draw
  step server_moves w = server_at w.server w
  step (types c msg) w = type_line (w.reader c) c msg w
  step (enters c) w = enter (w.reader c) c w
  step (writes c) w = write (w.reader c) c w
  step (draws c) w = draw c w

  pub run : List Move → World → World
  unfolding step
  run [] w = w
  run (m ∷ ms) w = run ms (step m w)
