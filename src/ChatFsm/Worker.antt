-- ===== src/ChatFsm/Worker.antt =====
-- The state machine of a worker (les21_FSM/src/server.c, `waitClient`).
use mathlib.Core.List.{append_assoc}
use summer_school.Base.{
  ℕ, ◌+◌, ◌≤◌, ◌<◌, ◌≡◌, ◌≢◌, refl, ◌∙◌, sym, ap, true, false, some, List, [], ◌∷◌, ◌++◌, drop,
  length, arith, All, IsText, strlen, overwrite, strlen-text, set, length-append, length-set,
  length-overwrite,
}
use summer_school.ChatFsm.{
  State, wait_for_client, talking, Msgbuf, minus_one, Process, Input, message, datagram, Reply,
  Texts, on_message, on_datagram, apologise, worker_switch, worker_loop, exit_code,
}

-- A text of more than three characters with its first three replaced.
abbrev pub marked : List ℕ → List ℕ
marked text = b'H' ∷ b'I' ∷ b'_' ∷ drop 3 text

-- What of a buffer is left behind a text and its zero byte.
abbrev pub behind : List ℕ → List ℕ → List ℕ
behind text buffer = drop (length text + 1) buffer

overwrite-text :
    (content buffer : List ℕ)
    → length content ≤ length buffer
    → overwrite buffer content ≡ content ++ drop (length content) buffer
unfolding overwrite
overwrite-text [] [] h = refl
overwrite-text [] (b ∷ buffer) h = refl
overwrite-text (c ∷ content) [] h = absurd (omega arith)
overwrite-text (c ∷ content) (b ∷ buffer) h =
    ap (λ (l : List ℕ). c ∷ l) (overwrite-text content buffer (omega arith))

-- The buffer after a datagram with a text and its zero byte.
received :
    (text buffer : List ℕ)
    → length text + 1 ≤ length buffer
    → overwrite buffer (text ++ 0 ∷ []) ≡ text ++ 0 ∷ behind text buffer
received text buffer f =
    let size = length-append {0} text (0 ∷ []) in
    overwrite-text (text ++ 0 ∷ []) buffer (omega (arith, size))
    ∙ ap (λ (n : ℕ). (text ++ 0 ∷ []) ++ drop n buffer) (size ∙ omega arith)
    ∙ append_assoc text (0 ∷ []) (behind text buffer)

-- A worker in a state that waits.
abbrev pub waiting : State → List ℕ → ℕ → ℕ → Process
waiting s buffer address errno = record {
  state = s;
  is_exit = false;
  errno = errno;
  buffer = buffer;
  address = address;
}

strlen-received :
    (text buffer : List ℕ)
    → IsText text
    → length text + 1 ≤ length buffer
    → strlen (overwrite buffer (text ++ 0 ∷ [])) ≡ some (length text)
strlen-received text buffer t f =
    ap strlen (received text buffer f) ∙ strlen-text text (behind text buffer) t

mark :
    (text rest : List ℕ)
    → 3 < length text
    → set (set (set (text ++ rest) 0 b'H') 1 b'I') 2 b'_' ≡ marked text ++ rest
mark [] rest l = absurd (omega arith)
mark (a ∷ []) rest l = absurd (omega arith)
mark (a ∷ b ∷ []) rest l = absurd (omega arith)
mark (a ∷ b ∷ c ∷ text) rest l = refl

-- The answer to a text of more than three characters.
on_datagram_long :
    (w : Process) (text : List ℕ) (from : ℕ)
    → IsText text
    → 3 < length text
    → length text + 1 ≤ length w.buffer
    → let b = marked text ++ 0 ∷ behind text w.buffer in
      on_datagram w (text ++ 0 ∷ []) from
      ≡ some (record w { buffer = b; address = from }, record { to = from; content = b } ∷ [])
unfolding on_datagram
on_datagram_long w text from t l f =
    simp
      (
        received text w.buffer f,
        strlen-text text (behind text w.buffer) t,
        mark text (0 ∷ behind text w.buffer) l,
      )
      (ground arith)

-- A text of at most three characters that fits the buffer is answered with the apology, to its
-- sender, and the worker waits for the next client.
pub worker_loop_short :
    (t : Texts) (buffer text : List ℕ) (address errno from : ℕ)
    → IsText text
    → length text ≤ 3
    → length text + 1 ≤ length buffer
    → let b = overwrite (overwrite buffer (text ++ 0 ∷ [])) t.sorry in
      worker_loop t (datagram (text ++ 0 ∷ []) from ∷ []) (waiting talking buffer address errno)
      ≡ some (waiting wait_for_client b from errno, record { to = from; content = b } ∷ [])
unfolding worker_loop worker_switch on_datagram apologise
worker_loop_short t buffer text address errno from x l f =
    simp (strlen-received text buffer x f) (ground arith)

-- A text that the server takes: more than three characters, and room for it in 256 bytes.
abbrev pub IsLong : List ℕ × ℕ → Type 0
IsLong (text, from) = IsText text × (3 < length text) × (length text + 1 ≤ 256)

abbrev pub datagrams : List (List ℕ × ℕ) → List Input
datagrams [] = []
datagrams ((text, from) ∷ rest) = datagram (text ++ 0 ∷ []) from ∷ datagrams rest

-- The replies to texts that are taken, from a buffer on: each goes to its sender, and holds its
-- text marked, a zero byte, and what the buffer held behind them.
abbrev pub echoes : List ℕ → List (List ℕ × ℕ) → List Reply
echoes buffer [] = []
echoes buffer ((text, from) ∷ rest) =
    record { to = from; content = marked text ++ 0 ∷ behind text buffer }
    ∷ echoes (marked text ++ 0 ∷ behind text buffer) rest

length-answer :
    (text buffer : List ℕ)
    → 3 < length text
    → length text + 1 ≤ length buffer
    → length (marked text ++ 0 ∷ behind text buffer) ≡ length buffer
length-answer text buffer l f =
    ap length (sym (mark text (0 ∷ behind text buffer) l))
    ∙ length-set _ 2 b'_'
    ∙ length-set _ 1 b'I'
    ∙ length-set _ 0 b'H'
    ∙ ap length (sym (received text buffer f))
    ∙ length-overwrite buffer (text ++ 0 ∷ [])

talk :
    (t : Texts) (texts : List (List ℕ × ℕ)) (buffer : List ℕ) (address errno : ℕ)
    → All IsLong texts
    → length buffer ≡ 256
    → (b : List ℕ) × (last : ℕ) × (worker_loop t
          (datagrams texts)
          (waiting talking buffer address errno)
        ≡ some (waiting talking b last errno, echoes buffer texts))
unfolding worker_loop worker_switch
talk t [] buffer address errno l s = (buffer, address, refl)
talk t ((text, from) ∷ texts) buffer address errno ((x, long, fits), l) s =
    let b = marked text ++ 0 ∷ behind text buffer in
    let (last_b, last, run) =
      talk t texts b from errno l (length-answer text buffer long (omega arith) ∙ s) in
    (
      last_b,
      last,
      rw
          (
            on_datagram_long (waiting talking buffer address errno) text from x long (omega arith),
            run,
          )
          refl,
    )

-- A worker that takes a client greets it, and answers each of its texts that the server takes, in
-- order and to its sender; afterwards it still talks.
pub worker_loop_session :
    (t : Texts) (buffer : List ℕ) (address : ℕ) (buff : Msgbuf) (texts : List (List ℕ × ℕ))
    → length buffer ≡ 256
    → buff.fd ≢ minus_one
    → All IsLong texts
    → let hello = overwrite buffer t.hello in
      (b : List ℕ) × (last : ℕ) × (worker_loop t
          (message buff ∷ datagrams texts)
          (waiting wait_for_client buffer address 0)
        ≡ some (
          waiting talking b last 0,
          record { to = buff.address; content = hello } ∷ echoes hello texts,
        ))
unfolding worker_loop worker_switch on_message
worker_loop_session t buffer address buff texts s real l =
    let hello = overwrite buffer t.hello in
    let (b, last, run) =
      talk t texts hello buff.address 0 l (length-overwrite buffer t.hello ∙ s) in
    (b, last, ground (arith, run))

worker_loop_exited :
    (t : Texts) (inputs : List Input) (w : Process)
    → w.is_exit ≡ true
    → worker_loop t inputs w ≡ some (w, [])
unfolding worker_loop
worker_loop_exited t [] w e = ground arith
worker_loop_exited t (i ∷ inputs) w e = ground arith

-- A message whose `fd` is -1 ends the worker that takes it, with exit code 0 and no word to the
-- client; what comes later is not read.
pub worker_loop-minus_one :
    (t : Texts) (buffer : List ℕ) (address errno : ℕ) (buff : Msgbuf) (inputs : List Input)
    → buff.fd ≡ minus_one
    → (w : Process) × (worker_loop t
          (message buff ∷ inputs)
          (waiting wait_for_client buffer address errno)
        ≡ some (w, []))
      × (w.is_exit ≡ true)
      × (exit_code w.state ≡ 0)
unfolding worker_loop worker_switch on_message
worker_loop-minus_one t buffer address errno buff inputs e =
    let w = record (waiting wait_for_client buffer buff.address errno) { is_exit = true } in
    (w, ground (arith, worker_loop_exited t inputs w refl), refl, refl)
