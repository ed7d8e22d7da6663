-- ===== src/MultiServer/Rounds.antt =====
-- Who is answered, and with what (les22_multiprotocol_server/src/server.c).
use summer_school.Base.{
  overwrite, ℕ, zero, suc, ◌+◌, ◌-◌, ◌≡◌, refl, ap, ◌∙◌, min, List, [], ◌∷◌, ◌++◌, map, arith,
  length, take, drop, ◌==◌, if◌then◌else◌, true,
}
use summer_school.MultiServer.{
  hola, Datagram, Reply, Server, Socket, udp_sock, tcp_sock, answer_udp, answer_tcp, first_event,
  epoll_round, epoll_loop, poll_round, poll_loop,
}

abbrev pub from : Datagram → ℕ
from d = d.from

abbrev pub to : Reply → ℕ
to r = r.to

module _ {ℓ} {A : Type ℓ} where
  drop-drop : (n : ℕ) (xs : List A) → drop n (drop 1 xs) ≡ drop (suc n) xs
  drop-drop zero [] = refl
  drop-drop (suc n) [] = refl
  drop-drop n (x ∷ xs) = refl

one_more {ℓ} : {A : Type ℓ} (xs : List A) (a : A) → length (xs ++ a ∷ []) ≡ suc (length xs)
one_more [] a = refl
one_more (x ∷ xs) a = ap suc (one_more xs a)

-- What a `poll` round does to the queues, and whom it answers.
pub record IsServed (n : ℕ) (s s' : Server) : Type 0 where
  pub udp_left : s'.udp ≡ drop n s.udp
  pub tcp_left : s'.tcp ≡ drop n s.tcp
  pub udp_answered : map to s'.udp_sent ≡ map to s.udp_sent ++ map from (take n s.udp)
  pub tcp_answered : length s'.tcp_sent ≡ length s.tcp_sent + min n (length s.tcp)

map-append : (xs ys : List Reply) → map to (xs ++ ys) ≡ map to xs ++ map to ys
map-append [] ys = refl
map-append (x ∷ xs) ys = ap (λ r. to x ∷ r) (map-append xs ys)

append_nil : (xs : List ℕ) → xs ≡ xs ++ []
append_nil [] = refl
append_nil (x ∷ xs) = ap (λ r. x ∷ r) (append_nil xs)

append_assoc : (xs ys zs : List ℕ) → (xs ++ ys) ++ zs ≡ xs ++ (ys ++ zs)
append_assoc [] ys zs = refl
append_assoc (x ∷ xs) ys zs = ap (λ r. x ∷ r) (append_assoc xs ys zs)

take-take :
    (n : ℕ) (xs : List Datagram)
    → map from (take 1 xs) ++ map from (take n (drop 1 xs)) ≡ map from (take (suc n) xs)
take-take zero [] = refl
take-take (suc n) [] = refl
take-take n (x ∷ xs) = refl

-- A server with these queues.
abbrev waiting : List Datagram → List (List ℕ) → Server → Server
waiting ds cs s = record s { udp = ds; tcp = cs }

poll_round-waiting :
    (ds : List Datagram) (cs : List (List ℕ)) (s : Server)
    → IsServed 1 (waiting ds cs s) (answer_tcp cs (answer_udp ds (waiting ds cs s)))
unfolding answer_udp answer_tcp
poll_round-waiting [] [] s = record {
  udp_left = refl;
  tcp_left = refl;
  udp_answered = append_nil (map to s.udp_sent);
  tcp_answered = omega arith;
}
poll_round-waiting [] (c ∷ cs) s = record {
  udp_left = refl;
  tcp_left = refl;
  udp_answered = append_nil (map to s.udp_sent);
  tcp_answered = one_more s.tcp_sent _ ∙ omega arith;
}
poll_round-waiting (d ∷ ds) [] s = record {
  udp_left = refl;
  tcp_left = refl;
  udp_answered = map-append s.udp_sent _;
  tcp_answered = omega arith;
}
poll_round-waiting (d ∷ ds) (c ∷ cs) s = record {
  udp_left = refl;
  tcp_left = refl;
  udp_answered = map-append s.udp_sent _;
  tcp_answered = one_more s.tcp_sent _ ∙ omega arith;
}

poll_round-IsServed : (s : Server) → IsServed 1 s (poll_round s)
unfolding poll_round
poll_round-IsServed s = poll_round-waiting s.udp s.tcp s

length-drop_one : (xs : List (List ℕ)) → length (drop 1 xs) ≡ length xs - 1
length-drop_one [] = refl
length-drop_one (x ∷ xs) = omega arith

IsServed-step : (n : ℕ) (s t u : Server) → IsServed 1 s t → IsServed n t u → IsServed (suc n) s u
IsServed-step n s t u h k = record {
  udp_left = k.udp_left ∙ ap (drop n) h.udp_left ∙ drop-drop n s.udp;
  tcp_left = k.tcp_left ∙ ap (drop n) h.tcp_left ∙ drop-drop n s.tcp;
  udp_answered =
      k.udp_answered
      ∙ ap (λ a. a ++ map from (take n t.udp)) h.udp_answered
      ∙ ap (λ ds. (map to s.udp_sent ++ map from (take 1 s.udp)) ++ map from (take n ds)) h.udp_left
      ∙ append_assoc (map to s.udp_sent) (map from (take 1 s.udp))
          (map from (take n (drop 1 s.udp)))
      ∙ ap (λ r. map to s.udp_sent ++ r) (take-take n s.udp);
  tcp_answered = omega (
    arith,
    h.tcp_answered,
    k.tcp_answered,
    ap (λ (l : List (List ℕ)). length l) h.tcp_left,
    length-drop_one s.tcp,
  );
}

-- `n` rounds of `poll` answer the first `n` datagrams, each to its sender and in order, and the
-- first `n` connections, and leave the rest waiting.
pub poll_loop-IsServed : (n : ℕ) (s : Server) → IsServed n s (poll_loop n s)
unfolding poll_loop
poll_loop-IsServed zero s = record {
  udp_left = refl;
  tcp_left = refl;
  udp_answered = append_nil (map to s.udp_sent);
  tcp_answered = omega arith;
}
poll_loop-IsServed (suc n) s =
    IsServed-step n s (poll_round s) (poll_loop n (poll_round s)) (poll_round-IsServed s)
      (poll_loop-IsServed n (poll_round s))

-- What waits, and what was sent, over both sockets.
abbrev pub pending : Server → ℕ
pending s = length s.udp + length s.tcp

abbrev pub sent : Server → ℕ
sent s = length s.udp_sent + length s.tcp_sent

epoll_round-waiting :
    (pick : Socket) (ds : List Datagram) (cs : List (List ℕ)) (s : Server)
    → let s' = epoll_round pick (waiting ds cs s) in
      (pending s' ≡ length ds + length cs - 1)
      × (sent s' ≡ sent s + min 1 (length ds + length cs))
      × (s'.errno ≡ s.errno)
unfolding epoll_round answer_udp answer_tcp first_event
epoll_round-waiting pick [] [] s = (omega arith, omega arith, refl)
epoll_round-waiting pick [] (c ∷ cs) s =
    (omega arith, ap (λ k. length s.udp_sent + k) (one_more s.tcp_sent _) ∙ omega arith, refl)
epoll_round-waiting pick (d ∷ ds) [] s =
    (omega arith, ap (λ k. k + length s.tcp_sent) (one_more s.udp_sent _) ∙ omega arith, refl)
epoll_round-waiting udp_sock (d ∷ ds) (c ∷ cs) s =
    (omega arith, ap (λ k. k + length s.tcp_sent) (one_more s.udp_sent _) ∙ omega arith, refl)
epoll_round-waiting tcp_sock (d ∷ ds) (c ∷ cs) s =
    (omega arith, ap (λ k. length s.udp_sent + k) (one_more s.tcp_sent _) ∙ omega arith, refl)

-- With no error, `n` rounds of `epoll` answer one message each while any waits, whichever socket the
-- kernel picks when both are ready: only `events[0]` is served.
pub epoll_loop_lem :
    (n : ℕ) (pick : ℕ → Socket) (s : Server)
    → s.errno ≡ 0
    → (pending (epoll_loop n pick s) ≡ pending s - n)
      × (sent (epoll_loop n pick s) ≡ sent s + min n (pending s))
unfolding epoll_loop
epoll_loop_lem zero pick s e = (omega arith, omega arith)
epoll_loop_lem (suc n) pick s e =
    let (p, q, f) = epoll_round-waiting (pick n) s.udp s.tcp s in
    let (p', q') = epoll_loop_lem n pick (epoll_round (pick n) s) (f ∙ e) in
    let on : (s.errno == 0) ≡ true = ground arith in
    let step : epoll_loop (suc n) pick s ≡ epoll_loop n pick (epoll_round (pick n) s) =
      ap (λ b. if b then epoll_loop n pick (epoll_round (pick n) s) else s) on in
    (ap pending step ∙ omega (arith, p, p'), ap sent step ∙ omega (arith, p, q, q'))

-- What two servers share that have the same messages to answer, have sent the same, and differ at most
-- in the first byte of their buffers, which "HOLA_" is written over.
pub record IsAlike (s t : Server) : Type 0 where
  pub udp_alike : s.udp ≡ t.udp
  pub tcp_alike : s.tcp ≡ t.tcp
  pub udp_sent_alike : s.udp_sent ≡ t.udp_sent
  pub tcp_sent_alike : s.tcp_sent ≡ t.tcp_sent
  pub buffer_alike : (xs : List ℕ) → hola (overwrite s.buffer xs) ≡ hola (overwrite t.buffer xs)
