-- ===== src/QueueChat/Relay.antt =====
-- Every message is passed on once for each client, and in order, and each client prints what it gets
-- (les16_IPC_objects).
use mathlib.Core.Logic.{◌≢◌}
use summer_school.Base.{
  ℕ, zero, suc, ◌+◌, ◌≤◌, ◌≡◌, refl, sym, ap, subst, ◌∙◌, true, false, none, some, Option,
  Bool-cases, ◌==◌, if◌then◌else◌, List, [], ◌∷◌, ◌++◌, ltb, All, arith, replicate, dec_lt,
  Option-cases, inl, inr,
}
use mathlib.Core.List.{append_assoc, append-nil}
use summer_school.QueueChat.Queues.{Queue}
use summer_school.QueueChat.{
  Msgbuf, Redirect, receiving, sending, Move, joins, posts, serves, redirects, takes, writes, hold,
  World, join, post, redirect_at, take_at, put_at, step, run,
}

-- Each message as often as there are clients.
pub spread : ℕ → List Msgbuf → List Msgbuf
spread n [] = []
spread n (m ∷ ms) = replicate n m ++ spread n ms

abbrev pub at_hand : Redirect → List Msgbuf
at_hand receiving = []
at_hand (sending m i) = m ∷ []

abbrev pub sent_so_far : Redirect → List Msgbuf
sent_so_far receiving = []
sent_so_far (sending m i) = replicate i m

abbrev pub IsWithin : ℕ → Redirect → Type 0
IsWithin n receiving = Unit
IsWithin n (sending m i) = i ≤ n

spread-append :
    (n : ℕ) (ms : List Msgbuf) (m : Msgbuf) → spread n (ms ++ m ∷ []) ≡ spread n ms ++ replicate n m
unfolding spread
spread-append n [] m = append-nil (replicate n m)
spread-append n (x ∷ ms) m =
    ap (λ l. replicate n x ++ l) (spread-append n ms m)
    ∙ sym (append_assoc (replicate n x) (spread n ms) (replicate n m))

replicate_next : (i : ℕ) (m : Msgbuf) → replicate i m ++ m ∷ [] ≡ replicate (suc i) m
replicate_next zero m = refl
replicate_next (suc i) m = ap (λ l. m ∷ l) (replicate_next i m)

-- The messages, whoever has them, and those of client `c`.
pub messages : List (ℕ × Msgbuf) → List Msgbuf
messages [] = []
messages (x ∷ xs) = x.1 ∷ messages xs

pub by : (c : ℕ) → List (ℕ × Msgbuf) → List Msgbuf
by c [] = []
by c (x ∷ xs) = if c == x.0 then x.1 ∷ by c xs else by c xs

abbrev pub in_hand : Option Msgbuf → List Msgbuf
in_hand none = []
in_hand (some m) = m ∷ []

messages-append :
    (xs : List (ℕ × Msgbuf)) (c : ℕ) (m : Msgbuf)
    → messages (xs ++ (c, m) ∷ []) ≡ messages xs ++ m ∷ []
unfolding messages
messages-append [] c m = refl
messages-append (x ∷ xs) c m = ap (λ l. x.1 ∷ l) (messages-append xs c m)

by-append_same :
    (xs : List (ℕ × Msgbuf)) (c d : ℕ) (m : Msgbuf)
    → (c == d) ≡ true
    → by c (xs ++ (d, m) ∷ []) ≡ by c xs ++ m ∷ []
unfolding by
by-append_same [] c d m e = rw e refl
by-append_same (x ∷ xs) c d m e = elim (Bool-cases (c == x.0)) [
  | inl t ↦ rw t (ap (λ l. x.1 ∷ l) (by-append_same xs c d m e))
  | inr f ↦ rw f (by-append_same xs c d m e)
]

by-append_other :
    (xs : List (ℕ × Msgbuf)) (c d : ℕ) (m : Msgbuf)
    → (c == d) ≡ false
    → by c (xs ++ (d, m) ∷ []) ≡ by c xs
unfolding by
by-append_other [] c d m e = rw e refl
by-append_other (x ∷ xs) c d m e = elim (Bool-cases (c == x.0)) [
  | inl t ↦ rw t (ap (λ l. x.1 ∷ l) (by-append_other xs c d m e))
  | inr f ↦ rw f (by-append_other xs c d m e)
]

module _ {Q : Type 0} (queue : Queue Msgbuf Q) where
  -- For `n` clients: what has been written is, in order, what the server is done with, what it has at
  -- hand and what waits for it; what the clients have taken and what waits for them is each message `n`
  -- times, with the copies so far of the one at hand; and each client has printed what it has taken,
  -- but for what it has in hand.
  pub record IsRelayed (n : ℕ) (w : World queue) : Type 0 where
    pub count : w.clients_number ≡ n
    pub within : IsWithin n w.redirect
    pub order : w.passed ++ (at_hand w.redirect ++ queue.contents w.middle) ≡ w.posted
    pub copies :
        messages w.taken ++ queue.contents w.client ≡ spread n w.passed ++ sent_so_far w.redirect
    pub own : (c : ℕ) → by c w.printed ++ in_hand (w.held c) ≡ by c w.taken

  join-IsRelayed :
      (n : ℕ) (m : Msgbuf) (w : World queue) → IsRelayed n w → IsRelayed n (join queue m w)
  unfolding join
  join-IsRelayed n m w v = elim (Option-cases (queue.msgsnd m w.service)) [
    | inl e ↦ rw e v
    | inr r ↦ rw r.1 record {
      count = v.count;
      within = v.within;
      order = v.order;
      copies = v.copies;
      own = v.own;
    }
  ]

  post-IsRelayed :
      (n : ℕ) (m : Msgbuf) (w : World queue) → IsRelayed n w → IsRelayed n (post queue m w)
  unfolding post
  post-IsRelayed n m w v = elim (Option-cases (queue.msgsnd m w.middle)) [
    | inl e ↦ rw e v
    | inr r ↦
        let now = queue.contents w.middle in
        rw r.1 record {
          count = v.count;
          within = v.within;
          order =
              ap (λ l. w.passed ++ (at_hand w.redirect ++ l)) (queue.sends m w.middle r.0 r.1)
              ∙ ap (λ l. w.passed ++ l) (sym (append_assoc (at_hand w.redirect) now (m ∷ [])))
              ∙ sym (append_assoc w.passed (at_hand w.redirect ++ now) (m ∷ []))
              ∙ ap (λ l. l ++ m ∷ []) v.order;
          copies = v.copies;
          own = v.own;
        }
  ]

  -- A message that client `c` takes is in its hand, and one that it writes is no more.
  take-own :
      (c : ℕ) (m : Msgbuf) (w : World queue)
      → w.held c ≡ none
      → ((d : ℕ) → by d w.printed ++ in_hand (w.held d) ≡ by d w.taken)
      → (d : ℕ)
      → by d w.printed ++ in_hand (hold c (some m) w.held d) ≡ by d (w.taken ++ (c, m) ∷ [])
  unfolding hold
  take-own c m w e own d = elim (Bool-cases (d == c)) [
    | inl t ↦
        let same : w.held d ≡ none = ap w.held (ground (arith, t)) ∙ e in
        rw (t, by-append_same w.taken d c m t)
          (ap (λ l. l ++ m ∷ [])
            (sym (append-nil (by d w.printed))
              ∙ ap (λ h. by d w.printed ++ in_hand h) (sym same)
              ∙ own d))
    | inr f ↦ rw (f, by-append_other w.taken d c m f) (own d)
  ]

  write-own :
      (c : ℕ) (m : Msgbuf) (w : World queue)
      → w.held c ≡ some m
      → ((d : ℕ) → by d w.printed ++ in_hand (w.held d) ≡ by d w.taken)
      → (d : ℕ) → by d (w.printed ++ (c, m) ∷ []) ++ in_hand (hold c none w.held d) ≡ by d w.taken
  unfolding hold
  write-own c m w e own d = elim (Bool-cases (d == c)) [
    | inl t ↦
        let same : w.held d ≡ some m = ap w.held (ground (arith, t)) ∙ e in
        rw (t, by-append_same w.printed d c m t)
          (append-nil (by d w.printed ++ m ∷ [])
            ∙ ap (λ h. by d w.printed ++ in_hand h) (sym same)
            ∙ own d)
    | inr f ↦ rw (f, by-append_other w.printed d c m f) (own d)
  ]

  take_at-IsRelayed :
      (n c : ℕ) (h : Option Msgbuf) (w : World queue)
      → w.held c ≡ h
      → IsRelayed n w
      → IsRelayed n (take_at queue h c w)
  unfolding take_at
  take_at-IsRelayed n c (some m) w e v = v
  take_at-IsRelayed n c none w e v = elim (Option-cases (queue.msgrcv w.client)) [
    | inl f ↦ rw f v
    | inr r ↦ rw r.1 record {
      count = v.count;
      within = v.within;
      order = v.order;
      copies =
          ap (λ l. l ++ queue.contents r.0.1) (messages-append w.taken c r.0.0)
          ∙ append_assoc (messages w.taken) (r.0.0 ∷ []) (queue.contents r.0.1)
          ∙ ap (λ l. messages w.taken ++ l) (sym (queue.receives r.0.0 w.client r.0.1 r.1))
          ∙ v.copies;
      own = take-own c r.0.0 w e v.own;
    }
  ]

  put_at-IsRelayed :
      (n c : ℕ) (h : Option Msgbuf) (w : World queue)
      → w.held c ≡ h
      → IsRelayed n w
      → IsRelayed n (put_at queue h c w)
  unfolding put_at
  put_at-IsRelayed n c none w e v = v
  put_at-IsRelayed n c (some m) w e v = record {
    count = v.count;
    within = v.within;
    order = v.order;
    copies = v.copies;
    own = write-own c m w e v.own;
  }

  redirect_at-IsRelayed :
      (n : ℕ) (r : Redirect) (w : World queue)
      → w.redirect ≡ r
      → IsRelayed n w
      → IsRelayed n (redirect_at queue r w)
  unfolding redirect_at
  redirect_at-IsRelayed n receiving w e v = elim (Option-cases (queue.msgrcv w.middle)) [
    | inl f ↦ rw f v
    | inr r ↦ rw r.1 record {
      count = v.count;
      within = omega arith;
      order =
          ap (λ l. w.passed ++ l) (sym (queue.receives r.0.0 w.middle r.0.1 r.1))
          ∙ ap (λ h. w.passed ++ (at_hand h ++ queue.contents w.middle)) (sym e)
          ∙ v.order;
      copies = v.copies ∙ ap (λ h. spread n w.passed ++ sent_so_far h) e;
      own = v.own;
    }
  ]
  redirect_at-IsRelayed n (sending m i) w e v = elim (dec_lt i w.clients_number) [
    | yes more ↦
        let on : ltb i w.clients_number ≡ true = ground arith in
        elim (Option-cases (queue.msgsnd m w.client)) [
          | inl f ↦ rw (on, f) v
          | inr r ↦
              rw (on, r.1)
                record {
                  count = v.count;
                  within = omega (arith, v.count);
                  order =
                      ap (λ h. w.passed ++ (at_hand h ++ queue.contents w.middle)) (sym e)
                      ∙ v.order;
                  copies =
                      ap (λ l. messages w.taken ++ l) (queue.sends m w.client r.0 r.1)
                      ∙ sym (append_assoc (messages w.taken) (queue.contents w.client) (m ∷ []))
                      ∙ ap (λ l. l ++ m ∷ [])
                          (v.copies ∙ ap (λ h. spread n w.passed ++ sent_so_far h) e)
                      ∙ append_assoc (spread n w.passed) (replicate i m) (m ∷ [])
                      ∙ ap (λ l. spread n w.passed ++ l) (replicate_next i m)
                      ∙ ap (λ k. spread n w.passed ++ replicate k m) {x = suc i} {y = i + 1}
                          (omega arith);
                  own = v.own;
                }
        ]
    | no enough ↦
        let off : ltb i w.clients_number ≡ false = ground arith in
        let all : i ≡ n = omega (arith, subst (IsWithin n) e v.within, v.count) in
        rw off record {
          count = v.count;
          within = tt;
          order =
              append_assoc w.passed (m ∷ []) (queue.contents w.middle)
              ∙ ap (λ h. w.passed ++ (at_hand h ++ queue.contents w.middle)) (sym e)
              ∙ v.order;
          copies =
              v.copies
              ∙ ap (λ h. spread n w.passed ++ sent_so_far h) e
              ∙ ap (λ k. spread n w.passed ++ replicate k m) all
              ∙ sym (spread-append n w.passed m)
              ∙ sym (append-nil (spread n (w.passed ++ m ∷ [])));
          own = v.own;
        }
  ]

  step-IsRelayed :
      (n : ℕ) (m : Move) (w : World queue)
      → m ≢ serves
      → IsRelayed n w
      → IsRelayed n (step queue m w)
  unfolding step
  step-IsRelayed n (joins m) w h v = join-IsRelayed n m w v
  step-IsRelayed n (posts m) w h v = post-IsRelayed n m w v
  step-IsRelayed n serves w h v = absurd (h refl)
  step-IsRelayed n redirects w h v = redirect_at-IsRelayed n w.redirect w refl v
  step-IsRelayed n (takes c) w h v = take_at-IsRelayed n c (w.held c) w refl v
  step-IsRelayed n (writes c) w h v = put_at-IsRelayed n c (w.held c) w refl v

  run-IsRelayed :
      (n : ℕ) (ms : List Move) (w : World queue)
      → All (λ m. m ≢ serves) ms
      → IsRelayed n w
      → IsRelayed n (run queue ms w)
  unfolding run
  run-IsRelayed n [] w h v = v
  run-IsRelayed n (m ∷ ms) w h v =
      run-IsRelayed n ms (step queue m w) h.1 (step-IsRelayed n m w h.0 v)

  -- The server knows `n` clients, and no message is on its way.
  abbrev pub ready : (n : ℕ) → (service middle client : Q) → World queue
  ready n service middle client = record {
    clients_number = n;
    service = service;
    middle = middle;
    client = client;
    redirect = receiving;
    posted = [];
    passed = [];
    held = λ c. none;
    taken = [];
    printed = [];
  }

  -- When the server knows `n` clients and takes up no other, and the queues for messages are empty at
  -- first: in any order of the moves, whenever the server waits and both queues are empty again, the
  -- clients together have taken what has been written, in its order and each message `n` times; and
  -- each client has printed what it has taken, in its order, but for a message between its `msgrcv` and
  -- its `write`.
  pub relay_lem :
      (n : ℕ) (service middle client : Q) (ms : List Move) (c : ℕ)
      → queue.contents middle ≡ []
      → queue.contents client ≡ []
      → All (λ m. m ≢ serves) ms
      → (run queue ms (ready n service middle client)).redirect ≡ receiving
      → queue.contents (run queue ms (ready n service middle client)).middle ≡ []
      → queue.contents (run queue ms (ready n service middle client)).client ≡ []
      → let w = run queue ms (ready n service middle client) in
        (messages w.taken ≡ spread n w.posted)
        × (by c w.printed ++ in_hand (w.held c) ≡ by c w.taken)
  unfolding spread messages by
  relay_lem n service middle client ms c e f h idle no_more all_read =
      let w = run queue ms (ready n service middle client) in
      let v : IsRelayed n w =
        run-IsRelayed n ms (ready n service middle client) h
          record { count = refl; within = tt; order = e; copies = f; own = λ d. refl } in
      let done : w.passed ≡ w.posted =
        sym (append-nil w.passed)
        ∙ ap (λ l. w.passed ++ l)
            (sym (ap (λ r. at_hand r ++ queue.contents w.middle) idle ∙ no_more))
        ∙ v.order in
      (
        sym (append-nil (messages w.taken))
            ∙ ap (λ l. messages w.taken ++ l) (sym all_read)
            ∙ v.copies
            ∙ ap (λ r. spread n w.passed ++ sent_so_far r) idle
            ∙ append-nil (spread n w.passed)
            ∙ ap (spread n) done,
        v.own c,
      )
