-- ===== src/ChatFsm/Master.antt =====
-- The state machine of `main` (les21_FSM/src/server.c).
use mathlib.Core.List.{append-nil, append_assoc}
use summer_school.Base.{
  ℕ, ◌+◌, ◌≡◌, ◌≢◌, ◌⊎◌, refl, ◌∙◌, sym, ap, true, false, List, [], ◌∷◌, ◌++◌, map, length, arith,
  inl, inr, All, Bool-cases, ◌==◌, ◌≤◌, ◌<◌,
}
use summer_school.ChatFsm.{
  State, create_handlers, wait_for_client, queue_client, talking, error, Msgbuf, Main, Answer,
  started, main_switch, main_loop,
}

-- What holds between two rounds: a state that a checked call leads to is entered without an error,
-- the workers exist from `WAIT_FOR_CLIENT` on, the loop ends in `ERROR` alone, and every message
-- carries the `fd` that the stack held.
pub record IsMain (junk : ℕ) (m : Main) : Type 0 where
  pub clean : (m.state ≡ create_handlers) ⊎ (m.state ≡ queue_client) → m.errno ≡ 0
  pub forked : (m.state ≡ wait_for_client) ⊎ (m.state ≡ queue_client) → m.handlers ≡ true
  pub stopped : m.is_exit ≡ true → m.state ≡ error
  pub failed : m.state ≡ error → m.errno ≢ 0
  pub reachable : m.state ≢ talking
  pub unset : m.fd ≡ junk
  pub messages : All (λ (b : Msgbuf). (b.fd ≡ junk) × (b.priority ≡ 1)) m.queue

All-snoc :
    {A : Type 0} (P : A → Type 0) (xs : List A) (x : A) → All P xs → P x → All P (xs ++ x ∷ [])
All-snoc P [] x h p = (p, tt)
All-snoc P (y ∷ ys) x h p = (h.0, All-snoc P ys x h.1 p)

round-IsMain :
    (s : State) (junk : ℕ) (m : Main) (a : Answer)
    → m.state ≡ s
    → m.is_exit ≡ false
    → IsMain junk m
    → IsMain junk (main_switch s a m)
unfolding main_switch
round-IsMain queue_client junk m a q e v = record {
  clean = ground arith;
  forked = ground arith;
  stopped = ground arith;
  failed = ground arith;
  reachable = ground arith;
  unset = v.unset;
  messages = elim (Bool-cases (a.err == 0)) [
    | inl ok ↦ rw ok (
        All-snoc (λ (b : Msgbuf). (b.fd ≡ junk) × (b.priority ≡ 1)) m.queue
          (record { priority = 1; fd = m.fd; address = m.address }) v.messages (v.unset, refl))
    | inr lost ↦ rw lost v.messages
  ];
}
round-IsMain s junk m a q e v = record {
  clean = ground arith;
  forked = ground arith;
  stopped = ground arith;
  failed = ground arith;
  reachable = ground arith;
  unset = v.unset;
  messages = v.messages;
}

-- Every round keeps the invariant.
pub main_switch-IsMain :
    (junk : ℕ) (m : Main) (a : Answer)
    → m.is_exit ≡ false
    → IsMain junk m
    → IsMain junk (main_switch m.state a m)
main_switch-IsMain junk m a e v = round-IsMain m.state junk m a refl e v

loop-IsMain :
    (answers : List Answer) (junk : ℕ) (m : Main)
    → IsMain junk m
    → IsMain junk (main_loop answers m)
unfolding main_loop
loop-IsMain [] junk m v = v
loop-IsMain (a ∷ answers) junk m v = elim (Bool-cases m.is_exit) [
  | inl stop ↦ rw (stop, main_loop) v
  | inr on ↦
      rw (on, main_loop)
        (loop-IsMain answers junk (main_switch m.state a m) (main_switch-IsMain junk m a on v))
]

started-IsMain : (junk : ℕ) → IsMain junk (started junk)
started-IsMain junk = ground arith

-- Whatever the system answers, the invariant holds after every round of `main`.
pub main_loop-IsMain :
    (answers : List Answer) (junk : ℕ) → IsMain junk (main_loop answers (started junk))
main_loop-IsMain answers junk = loop-IsMain answers junk (started junk) (started-IsMain junk)

-- How many rounds a state is away from the end once `errno` is set.
rank : State → ℕ
rank queue_client = 3
rank talking = 1
rank error = 1
rank _ = 2

rank-le : (s : State) → rank s ≤ 3
unfolding rank
rank-le queue_client = omega arith
rank-le _ = omega arith

rank-round :
    (s : State) (m : Main) (a : Answer)
    → m.errno ≢ 0
    → ((main_switch s a m).errno ≢ 0)
      × (((main_switch s a m).is_exit ≡ true) ⊎ (rank (main_switch s a m).state + 1 ≤ rank s))
unfolding rank main_switch
rank-round queue_client m a h = ground arith
rank-round _ m a h = ground arith

main_loop_exited : (answers : List Answer) (m : Main) → m.is_exit ≡ true → main_loop answers m ≡ m
unfolding main_loop
main_loop_exited [] m e = refl
main_loop_exited (a ∷ answers) m e = ground arith

rank-pos : (s : State) → 0 < rank s
unfolding rank
rank-pos queue_client = omega arith
rank-pos _ = omega arith

main_loop_next :
    (a : Answer) (answers : List Answer) (m : Main)
    → m.is_exit ≡ false
    → main_loop (a ∷ answers) m ≡ main_loop answers (main_switch m.state a m)
unfolding main_loop
main_loop_next a answers m e = ground arith

main_loop_ends :
    (answers : List Answer) (m : Main)
    → m.errno ≢ 0
    → (m.is_exit ≡ true) ⊎ (rank m.state ≤ length answers)
    → (main_loop answers m).is_exit ≡ true
main_loop_ends answers m h (inl e) = ap (λ (x : Main). x.is_exit) (main_loop_exited answers m e) ∙ e
main_loop_ends [] m h (inr r) = absurd (omega (arith, rank-pos m.state))
main_loop_ends (a ∷ answers) m h (inr r) = elim (Bool-cases m.is_exit) [
  | inl e ↦ ap (λ (x : Main). x.is_exit) (main_loop_exited (a ∷ answers) m e) ∙ e
  | inr on ↦
      let (h', next) = rank-round m.state m a h in
      rw (main_loop_next a answers m on) (
        main_loop_ends answers (main_switch m.state a m) h'
          (elim next [ inl e ↦ inl e | inr lower ↦ inr (omega arith) ]))
]

-- `errno` is never cleared: once it is set, the loop ends within three more rounds, whatever the
-- system answers.
pub main_loop_errno :
    (answers : List Answer) (m : Main)
    → m.errno ≢ 0
    → 3 ≤ length answers
    → (main_loop answers m).is_exit ≡ true
main_loop_errno answers m h l = main_loop_ends answers m h (inr (omega (arith, rank-le m.state)))

-- The answers for one client: its datagram arrives and its message is queued.
abbrev pub client : ℕ → List Answer
client address = record { err = 0; from = address } ∷ record { err = 0; from = 0 } ∷ []

abbrev pub clients : List ℕ → List Answer
clients [] = []
clients (x ∷ xs) = client x ++ clients xs

-- `main` in `WAIT_FOR_CLIENT`, with a queue.
abbrev serving : ℕ → List Msgbuf → ℕ → Main
serving junk queue address = record {
  state = wait_for_client;
  is_exit = false;
  errno = 0;
  address = address;
  fd = junk;
  queue = queue;
  handlers = true;
}

abbrev pub message_for : ℕ → ℕ → Msgbuf
message_for junk address = record { priority = 1; fd = junk; address = address }

clients_served :
    (junk : ℕ) (addresses : List ℕ) (queue : List Msgbuf) (address : ℕ)
    → (last : ℕ) × (main_loop (clients addresses) (serving junk queue address)
        ≡ serving junk (queue ++ map (message_for junk) addresses) last)
unfolding main_loop main_switch
clients_served junk [] queue address =
    (address, ap (λ (q : List Msgbuf). serving junk q address) (sym (append-nil queue)))
clients_served junk (x ∷ xs) queue address =
    let (last, run) = clients_served junk xs (queue ++ message_for junk x ∷ []) x in
    (
      last,
      run
          ∙ ap (λ (q : List Msgbuf). serving junk q last)
              (append_assoc queue (message_for junk x ∷ []) (map (message_for junk) xs)),
    )

-- With no failing call `main` queues one message for each client, in the order of arrival.
pub main_loop-clients :
    (junk : ℕ) (addresses : List ℕ)
    → let ok : Answer = record { err = 0; from = 0 } in
      let m = main_loop (ok ∷ ok ∷ clients addresses) (started junk) in
      (m.queue ≡ map (message_for junk) addresses)
      × (m.state ≡ wait_for_client)
      × (m.is_exit ≡ false)
unfolding main_loop main_switch
main_loop-clients junk addresses =
    let (last, run) = clients_served junk addresses [] 0 in
    (
      ap (λ (x : Main). x.queue) run,
      ap (λ (x : Main). x.state) run,
      ap (λ (x : Main). x.is_exit) run,
    )
