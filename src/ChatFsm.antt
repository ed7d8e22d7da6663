-- ===== src/ChatFsm.antt =====
-- The chat server with a queue, les21_FSM/src/server.c: the state machine of `main` and the one of
-- the ten worker processes (`waitClient`). What a system call answers is an argument of the step.
pub mod Master
pub mod Worker
mod Examples
use summer_school.Base.{
  ℕ, ◌+◌, ◌^◌, ◌-◌, Bool, true, false, ◌||◌, not, Option, none, some, List, [], ◌∷◌, ◌++◌, ◌==◌,
  leb, if◌then◌else◌, ◌>>=◌, set, strlen, overwrite,
}

pub data State : Type 0 where
  create_handlers create_queue wait_for_client queue_client talking error : State

-- `struct msgbuf`; `fd` is a bit pattern.
pub record Msgbuf : Type 0 where
  pub priority : ℕ
  pub fd : ℕ
  pub address : ℕ

-- -1 as an `int`.
abbrev pub minus_one : ℕ
minus_one = 2 ^ 32 - 1

-- A call that succeeds leaves `errno` as it is; one that fails sets it to `err`.
abbrev pub set_errno : (errno err : ℕ) → ℕ
set_errno errno err = if err == 0 then errno else err

-- The process of `main`, with the message queue; `handlers` says that the ten workers are forked and
-- `main_handler` is installed.
pub record Main : Type 0 where
  pub state : State
  pub is_exit : Bool
  pub errno : ℕ
  pub address : ℕ
  pub fd : ℕ
  pub queue : List Msgbuf
  pub handlers : Bool

-- What the system answers in one round: the error of the call, 0 for none, and the address that
-- `recvfrom` reports.
pub record Answer : Type 0 where
  pub err : ℕ
  pub from : ℕ

-- `main` before the loop. `msgbuf.fd` is never assigned: `junk` is what the stack holds there.
abbrev pub started : ℕ → Main
started junk = record {
  state = create_queue;
  is_exit = false;
  errno = 0;
  address = 0;
  fd = junk;
  queue = [];
  handlers = false;
}

-- The new state after a checked call: `if (errno != 0) { state = ERROR; break; }`.
abbrev pub checked : ℕ → State → State
checked errno next = if errno == 0 then next else error

-- One round of the `switch`, by the state.
pub main_switch : State → Answer → Main → Main
main_switch create_queue a m =
    let e = set_errno m.errno a.err in record m { errno = e; state = checked e create_handlers }
main_switch create_handlers a m =
    let e = set_errno m.errno a.err in
    record m { errno = e; handlers = true; state = checked e wait_for_client }
main_switch wait_for_client a m =
    let e = set_errno m.errno a.err in
    record m {
      errno = e;
      address = if a.err == 0 then a.from else m.address;
      state = checked e queue_client;
    }
main_switch queue_client a m =
    let sent : Msgbuf = record { priority = 1; fd = m.fd; address = m.address } in
    record m {
      errno = set_errno m.errno a.err;
      queue = if a.err == 0 then m.queue ++ (sent ∷ []) else m.queue;
      state = wait_for_client;
    }
main_switch _ a m = record m { is_exit = true }

-- `while(!isExit)` over the answers of the system.
pub main_loop : List Answer → Main → Main
main_loop [] m = m
main_loop (a ∷ answers) m = elim m.is_exit [
  | true ↦ m
  | false ↦ main_loop answers (main_switch m.state a m)
]

-- A worker: its state, its flag, `errno`, the buffer of 256 bytes and the client's address.
pub record Process : Type 0 where
  pub state : State
  pub is_exit : Bool
  pub errno : ℕ
  pub buffer : List ℕ
  pub address : ℕ

-- What a worker that waits is woken by: a message from the queue, a datagram, or the failure of the
-- call that waits, with the `errno` `err + 1`.
pub data Input : Type 0 where
  message : Msgbuf → Input
  datagram : (content : List ℕ) (from : ℕ) → Input
  failure : (err : ℕ) → Input

-- A datagram that a worker sends: all 256 bytes of its buffer.
pub record Reply : Type 0 where
  pub to : ℕ
  pub content : List ℕ

-- "Hello, my dear client. Are you ok?\n" and "Sorry, your string was too small... Shutting down the
-- connection.", with their zero bytes, are parameters of the steps.
pub record Texts : Type 0 where
  pub hello : List ℕ
  pub sorry : List ℕ

-- `WAIT_FOR_CLIENT`: the message is in `buff` when `msgrcv` succeeds.
pub on_message : Texts → Process → Msgbuf → Process × List Reply
on_message t w buff =
    let b = overwrite w.buffer t.hello in
    if buff.fd == minus_one || not (w.errno == 0)
    then (record w { address = buff.address; is_exit = true }, [])
    else (
      record w { address = buff.address; state = talking; buffer = b },
      record { to = buff.address; content = b } ∷ [],
    )

-- `TALKING`: the three characters are put in front of what was received.
pub on_datagram : Process → List ℕ → ℕ → Option (Process × List Reply)
on_datagram w content from =
    let b = overwrite w.buffer content in
    strlen b >>= λ n.
    if leb n 3
    then some (record w { buffer = b; address = from; state = error }, [])
    else let b' = set (set (set b 0 b'H') 1 b'I') 2 b'_' in
      some (record w { buffer = b'; address = from }, record { to = from; content = b' } ∷ [])

-- `ERROR`: it waits for nothing.
pub apologise : Texts → Process → Process × List Reply
apologise t w =
    let b = overwrite w.buffer t.sorry in
    (record w { buffer = b; state = wait_for_client }, record { to = w.address; content = b } ∷ [])

-- The worker's `switch` at a state that waits. A failed `msgrcv` shows in `errno`; after a failed
-- `recvfrom` the old buffer is answered. What a state does not wait for does not wake it.
pub worker_switch : Texts → State → Input → Process → Option (Process × List Reply)
worker_switch t wait_for_client (message buff) w = some (on_message t w buff)
worker_switch t wait_for_client (failure e) w =
    some (record w { errno = e + 1; is_exit = true }, [])
worker_switch t talking (datagram content from) w = on_datagram w content from
worker_switch t talking (failure e) w = on_datagram (record w { errno = e + 1 }) [] w.address
worker_switch t _ _ w = some (w, [])

-- The rounds of the loop up to the next call that waits: one, in `ERROR`.
abbrev pub settle : Texts → State → Process → Process × List Reply
settle t error w = apologise t w
settle t _ w = (w, [])

-- `while(!isExit)` over the inputs, with all replies in order, up to a call that waits.
pub worker_loop : Texts → List Input → Process → Option (Process × List Reply)
worker_loop t [] w = if w.is_exit then some (w, []) else some (settle t w.state w)
worker_loop t (i ∷ inputs) w =
    let (w₀, first) = settle t w.state w in
    let next = worker_switch t w₀.state i w₀ >>= λ (w₁, sent).
    worker_loop t inputs w₁ >>= λ (w₂, more). some (w₂, first ++ (sent ++ more)) in
    if w.is_exit then some (w, []) else next

-- The exit code: `if (state == WAIT_FOR_CLIENT) exit(0); … exit(15);`.
abbrev pub exit_code : State → ℕ
exit_code wait_for_client = 0
exit_code _ = 15
