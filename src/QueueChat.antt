-- ===== src/QueueChat.antt =====
-- The chat over message queues, les16_IPC_objects/src/server.c and client.c: one queue for clients that
-- join, one for what they write, one for what they are to print. The queues are an argument. Each holds
-- messages of one type, so the type is left out.
pub mod Queues
pub mod Relay
pub mod Client
mod Examples
use summer_school.Base.{
  ℕ, zero, suc, ◌+◌, Option, none, some, List, [], ◌∷◌, ◌++◌, ltb, ◌==◌, if◌then◌else◌,
}
use summer_school.QueueChat.Queues.{Queue}

-- `struct msgbuf`
pub record Msgbuf : Type 0 where
  pub username : List ℕ
  pub mtext : List ℕ

-- Where `redirecting_thread` is: in `msgrcv`, or in the `for` loop.
pub data Redirect : Type 0 where
  receiving : Redirect
  sending : (message : Msgbuf) → (i : ℕ) → Redirect

-- Who moves: a client that joins or writes, the two threads of the server, and the `screen_printer` of
-- client `c`, in its `msgrcv` or in its `write`.
pub data Move : Type 0 where
  joins posts : Msgbuf → Move
  serves redirects : Move
  takes writes : (c : ℕ) → Move

-- What client `c` has between `msgrcv` and `write`.
pub hold : (c : ℕ) → Option Msgbuf → (ℕ → Option Msgbuf) → ℕ → Option Msgbuf
hold c v held d = if d == c then v else held d

module _ {Q : Type 0} (queue : Queue Msgbuf Q) where
  -- `posted` and `passed` are the messages that have been written and that the server is done with;
  -- `taken` and `printed` those that the clients have received and printed, each with its client.
  pub record World : Type 0 where
    pub clients_number : ℕ
    pub service : Q
    pub middle : Q
    pub client : Q
    pub redirect : Redirect
    pub posted : List Msgbuf
    pub passed : List Msgbuf
    pub held : ℕ → Option Msgbuf
    pub taken : List (ℕ × Msgbuf)
    pub printed : List (ℕ × Msgbuf)

  -- A call that sleeps leaves its thread there.
  abbrev pub sent : Option Q → World → (Q → World) → World
  sent none w goes_on = w
  sent (some q) w goes_on = goes_on q

  abbrev pub got : Option (Msgbuf × Q) → World → (Msgbuf → Q → World) → World
  got none w goes_on = w
  got (some (m, q)) w goes_on = goes_on m q

  -- The `msgsnd` of a client's `main`.
  pub join : Msgbuf → World → World
  join m w = sent (queue.msgsnd m w.service) w λ q. record w { service = q }

  -- The `msgsnd` of its `screen_reader`.
  pub post : Msgbuf → World → World
  post m w =
      sent (queue.msgsnd m w.middle) w λ q. record w { middle = q; posted = w.posted ++ m ∷ [] }

  -- A round of `service_thread`.
  pub serve : World → World
  serve w =
      got (queue.msgrcv w.service) w
        λ m q. record w { service = q; clients_number = w.clients_number + 1 }

  -- What `redirecting_thread` does next: `clients_number` is read again in each round of the loop.
  pub redirect_at : Redirect → World → World
  redirect_at receiving w =
      got (queue.msgrcv w.middle) w λ m q. record w { middle = q; redirect = sending m 0 }
  redirect_at (sending m i) w =
      let copy =
        sent (queue.msgsnd m w.client) w
          λ q. record w { client = q; redirect = sending m (i + 1) } in
      let end : World = record w { redirect = receiving; passed = w.passed ++ m ∷ [] } in
      if ltb i w.clients_number then copy else end

  -- The `msgrcv` of the `screen_printer` of client `c`, if it is there.
  pub take_at : Option Msgbuf → (c : ℕ) → World → World
  unfolding hold
  take_at (some m) c w = w
  take_at none c w =
      got (queue.msgrcv w.client) w λ m q. record w {
        client = q;
        held = hold c (some m) w.held;
        taken = w.taken ++ (c, m) ∷ [];
      }

  -- Its `write`.
  pub put_at : Option Msgbuf → (c : ℕ) → World → World
  unfolding hold
  put_at none c w = w
  put_at (some m) c w = record w { held = hold c none w.held; printed = w.printed ++ (c, m) ∷ [] }

  pub step : Move → World → World
  unfolding join post serve redirect_at take_at put_at
  step (joins m) w = join m w
  step (posts m) w = post m w
  step serves w = serve w
  step redirects w = redirect_at w.redirect w
  step (takes c) w = take_at (w.held c) c w
  step (writes c) w = put_at (w.held c) c w

  pub run : List Move → World → World
  unfolding step
  run [] w = w
  run (m ∷ ms) w = run ms (step m w)
