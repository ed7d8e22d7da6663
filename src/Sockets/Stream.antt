-- ===== src/Sockets/Stream.antt =====
-- The exchange over a connection: les19_sockets/src, `tcpServer` and `tcpclient`.
use summer_school.Base.{
  min, inl, inr, ◌∙◌, ◌⊎◌, ℕ, zero, suc, ◌+◌, ◌≤◌, ◌<◌, ◌≡◌, ◌≢◌, refl, sym, ap, subst, Option,
  some, List, [], ◌∷◌, ◌++◌, ltb, if◌then◌else◌, length, All, arith, IsText, take, drop, ℕ_discrete,
  overwrite, replicate,
}
use summer_school.Shell.{text_of}
use summer_school.Shell.Text.{text_of-text}
use summer_school.Packet.Strings.{overwrite-append}
use summer_school.Sockets.{
  Client, ended, breaks, receive_at, nothing_at, break_at, send_at, sending, receiving, Server,
  listening, gone, Link, Move, sends, receives, answers, answer_at, step, run, connected,
}

-- "Hello world :3" with another second letter.
abbrev pub hello_with : ℕ → List ℕ
hello_with x =
    b'H' ∷ x ∷ b'l' ∷ b'l' ∷ b'o' ∷ 32 ∷ b'w' ∷ b'o' ∷ b'r' ∷ b'l' ∷ b'd' ∷ 32 ∷ b':' ∷ b'3' ∷ []

abbrev word : ℕ → List ℕ
word x = b'H' ∷ x ∷ b'l' ∷ b'l' ∷ b'o' ∷ []

abbrev buff_of : ℕ → List ℕ
buff_of x = hello_with x ++ replicate 11 0

-- The first `n` texts that the client prints: the letters from A to Z, and Z again from then on.
abbrev pub texts : ℕ → List (Option (List ℕ))
texts zero = []
texts (suc n) = texts n ++ some (hello_with (b'A' + min n 25)) ∷ []

abbrev place_of : ℕ → Server
place_of n = if ltb n 26 then listening n else gone

IsText-hello_with : (x : ℕ) → x ≢ 0 → IsText (hello_with x)
IsText-hello_with x h = omega arith

pub text_of-hello_with : (x : ℕ) → x ≢ 0 → text_of (buff_of x) ≡ some (hello_with x)
text_of-hello_with x h = text_of-text (hello_with x) (replicate 10 0) (IsText-hello_with x h)

-- The five bytes of the client are on their way.
abbrev asked_link : (n x : ℕ) (buff : List ℕ) → Link
asked_link n x buff = record {
  client = receiving;
  server = listening n;
  client_buff = buff_of x;
  server_buff = buff;
  to_server = word x;
  to_client = [];
  printed = texts n;
}

-- The five bytes of the server are on their way.
abbrev answered_link : (n x : ℕ) (buff : List ℕ) → Link
answered_link n x buff = record {
  client = receiving;
  server = place_of (suc n);
  client_buff = buff_of x;
  server_buff = buff;
  to_server = [];
  to_client = word (b'A' + n);
  printed = texts n;
}

-- Nothing is on its way, and the client has printed `n` texts.
abbrev asking_link : (s : Server) (n x : ℕ) (buff : List ℕ) → Link
asking_link s n x buff = record {
  client = sending;
  server = s;
  client_buff = buff_of x;
  server_buff = buff;
  to_server = [];
  to_client = [];
  printed = texts n;
}

-- The server is at its end.
abbrev over_link : (n : ℕ) (c : Client) (buff to_server : List ℕ) → Link
over_link n c buff to_server = record {
  client = c;
  server = gone;
  client_buff = buff_of b'Z';
  server_buff = buff;
  to_server = to_server;
  to_client = [];
  printed = texts n;
}

-- The places of an exchange, when the client has printed `n` texts.
data IsExchange : Link → Type 0 where
  asking :
      (n x : ℕ) (buff : List ℕ)
      → n < 26
      → 5 ≤ length buff
      → IsExchange (asking_link (listening n) n x buff)
  asked : (n x : ℕ) (buff : List ℕ) → n < 26 → 5 ≤ length buff → IsExchange (asked_link n x buff)
  answered :
      (n x : ℕ) (buff : List ℕ) → n < 26 → 5 ≤ length buff → IsExchange (answered_link n x buff)
  over :
      (n : ℕ) (c : Client) (buff to_server : List ℕ)
      → 26 ≤ n
      → IsExchange (over_link n c buff to_server)

-- The network gives five bytes at once.
abbrev pub IsWhole : Move → Type 0
IsWhole sends = Unit
IsWhole breaks = Unit
IsWhole (receives given) = 5 ≤ given
IsWhole (answers given) = 5 ≤ given

take_all : (n : ℕ) (xs : List ℕ) → length xs ≤ n → take n xs ≡ xs
take_all zero [] h = refl
take_all zero (x ∷ xs) h = absurd (omega arith)
take_all (suc n) [] h = refl
take_all (suc n) (x ∷ xs) h = ap (λ l. x ∷ l) (take_all n xs (omega arith))

drop_all : (n : ℕ) (xs : List ℕ) → length xs ≤ n → drop n xs ≡ []
drop_all zero [] h = refl
drop_all zero (x ∷ xs) h = absurd (omega arith)
drop_all (suc n) [] h = refl
drop_all (suc n) (x ∷ xs) h = drop_all n xs (omega arith)

sleeping : (s : Server) (given : ℕ) (k : Link) → answer_at s given [] k ≡ k
unfolding answer_at
sleeping (listening i) given k = refl
sleeping gone given k = refl

unbroken : (s : Server) (k : Link) → break_at s receiving k ≡ k
unfolding break_at
unbroken (listening i) k = refl
unbroken gone k = refl

-- The answer to five bytes.
answered_by :
    (n x given : ℕ) (buff : List ℕ)
    → 5 ≤ length buff
    → 5 ≤ given
    → answer_at (listening n) given (word x) (asked_link n x buff)
      ≡ answered_link n x (word (b'A' + n) ++ drop 5 buff)
unfolding answer_at
answered_by n x given buff l g =
    let stored : overwrite buff (word x) ≡ word x ++ drop 5 buff =
      overwrite-append buff (word x) l in
    rw (take_all given (word x) g, drop_all given (word x) g, stored)
      (ap
        (λ j. record {
          client = receiving;
          server = place_of j;
          client_buff = buff_of x;
          server_buff = word (b'A' + n) ++ drop 5 buff;
          to_server = [];
          to_client = word (b'A' + n);
          printed = texts n;
        })
        {x = n + 1} {y = suc n} (omega arith))

-- What the client does with it.
received_by :
    (n x given : ℕ) (buff : List ℕ)
    → n < 26
    → 5 ≤ given
    → receive_at receiving given (word (b'A' + n)) (answered_link n x buff)
      ≡ asking_link (place_of (suc n)) (suc n) (b'A' + n) buff
unfolding receive_at overwrite
received_by n x given buff h g =
    let y = b'A' + n in
    let m : y ≡ b'A' + min n 25 = omega arith in
    rw (take_all given (word y) g, drop_all given (word y) g, text_of-hello_with y (omega arith))
      (ap
        (λ z. record (asking_link (place_of (suc n)) (suc n) y buff) {
          printed = texts n ++ some (hello_with z) ∷ [];
        })
        m)

place_before : (n : ℕ) → n < 26 → place_of n ≡ listening n
place_before n h = ground arith

place_last :
    (n : ℕ) (buff : List ℕ)
    → n ≡ 25
    → asking_link (place_of (suc n)) (suc n) (b'A' + n) buff ≡ over_link (suc n) sending buff []
place_last n buff h =
    subst
      (λ n.
        asking_link (place_of (suc n)) (suc n) (b'A' + n) buff ≡ over_link (suc n) sending buff [])
      (sym h) refl

-- The client is about to ask on, or the server is at its end.
received-IsExchange :
    (n : ℕ) (buff : List ℕ)
    → n < 26
    → 5 ≤ length buff
    → IsExchange (asking_link (place_of (suc n)) (suc n) (b'A' + n) buff)
received-IsExchange n buff h l = elim (ℕ_discrete n 25) [
  | yes last ↦
      subst IsExchange (sym (place_last n buff last)) (over (suc n) sending buff [] (omega arith))
  | no before ↦
      subst (λ s. IsExchange (asking_link s (suc n) (b'A' + n) buff))
        (sym (place_before (suc n) (omega arith))) (asking (suc n) (b'A' + n) buff (omega arith) l)
]

-- A text that is printed again.
printed_again : (n : ℕ) → 26 ≤ n → texts n ++ text_of (buff_of b'Z') ∷ [] ≡ texts (suc n)
printed_again n h =
    let m : b'Z' ≡ b'A' + min n 25 = omega arith in
    rw (text_of-hello_with b'Z' (omega arith)) (ap (λ z. texts n ++ some (hello_with z) ∷ []) m)

answered-IsExchange :
    (n x : ℕ) (buff : List ℕ)
    → n < 26
    → 5 ≤ length buff
    → IsExchange (answered_link n x (word (b'A' + n) ++ drop 5 buff))
answered-IsExchange n x buff h l = answered n x (word (b'A' + n) ++ drop 5 buff) h (omega arith)

again-IsExchange :
    (n : ℕ) (buff to_server : List ℕ)
    → 26 ≤ n
    → IsExchange (nothing_at gone (over_link n receiving buff to_server))
unfolding nothing_at
again-IsExchange n buff to_server h =
    subst (λ t. IsExchange (record (over_link n sending buff to_server) { printed = t }))
      (sym (printed_again n h)) (over (suc n) sending buff to_server (omega arith))

step-IsExchange : (m : Move) (k : Link) → IsWhole m → IsExchange k → IsExchange (step m k)
unfolding step send_at break_at receive_at answer_at nothing_at
step-IsExchange sends k w (asking n x buff h l) = asked n x buff h l
step-IsExchange sends k w (asked n x buff h l) = asked n x buff h l
step-IsExchange sends k w (answered n x buff h l) = answered n x buff h l
step-IsExchange sends k w (over n sending buff out h) = over n receiving buff _ h
step-IsExchange sends k w (over n receiving buff out h) = over n receiving buff out h
step-IsExchange sends k w (over n ended buff out h) = over n ended buff out h
step-IsExchange breaks k w (asking n x buff h l) = asking n x buff h l
step-IsExchange breaks k w (asked n x buff h l) = asked n x buff h l
step-IsExchange breaks k w (answered n x buff h l) =
    rw (unbroken (place_of (suc n))) (answered n x buff h l)
step-IsExchange breaks k w (over n sending buff out h) = over n ended buff out h
step-IsExchange breaks k w (over n receiving buff out h) = over n receiving buff out h
step-IsExchange breaks k w (over n ended buff out h) = over n ended buff out h
step-IsExchange (receives given) k w (asking n x buff h l) = asking n x buff h l
step-IsExchange (receives given) k w (asked n x buff h l) = asked n x buff h l
step-IsExchange (receives given) k w (answered n x buff h l) =
    subst IsExchange (sym (received_by n x given buff h w)) (received-IsExchange n buff h l)
step-IsExchange (receives given) k w (over n sending buff out h) = over n sending buff out h
step-IsExchange (receives given) k w (over n receiving buff out h) = again-IsExchange n buff out h
step-IsExchange (receives given) k w (over n ended buff out h) = over n ended buff out h
step-IsExchange (answers given) k w (asking n x buff h l) = asking n x buff h l
step-IsExchange (answers given) k w (asked n x buff h l) =
    subst IsExchange (sym (answered_by n x given buff l w)) (answered-IsExchange n x buff h l)
step-IsExchange (answers given) k w (answered n x buff h l) =
    rw (sleeping (place_of (suc n)) given) (answered n x buff h l)
step-IsExchange (answers given) k w (over n c buff out h) = over n c buff out h

run-IsExchange :
    (moves : List Move) (k : Link) → All IsWhole moves → IsExchange k → IsExchange (run moves k)
unfolding run
run-IsExchange [] k w v = v
run-IsExchange (m ∷ moves) k w v = run-IsExchange moves (step m k) w.1 (step-IsExchange m k w.0 v)

one_more :
    (xs : List (Option (List ℕ))) (x : Option (List ℕ)) → length (xs ++ x ∷ []) ≡ suc (length xs)
one_more [] x = refl
one_more (y ∷ xs) x = ap suc (one_more xs x)

length-texts : (n : ℕ) → length (texts n) ≡ n
length-texts zero = refl
length-texts (suc n) = one_more (texts n) _ ∙ ap suc (length-texts n)

printed-texts : (k : Link) → IsExchange k → k.printed ≡ texts (length k.printed)
printed-texts k (asking n x buff h l) = ap texts (sym (length-texts n))
printed-texts k (asked n x buff h l) = ap texts (sym (length-texts n))
printed-texts k (answered n x buff h l) = ap texts (sym (length-texts n))
printed-texts k (over n c buff out h) = ap texts (sym (length-texts n))

-- One round of both programs.
abbrev pub round : (given given' : ℕ) → List Move
round given given' = sends ∷ answers given ∷ receives given' ∷ []

-- What a round does: one text more, or the client has been ended, behind the last letter.
abbrev pub IsOn : Link → Link → Type 0
IsOn k k' =
    (length k'.printed ≡ suc (length k.printed)) ⊎ ((k.client ≡ ended) × (26 ≤ length k.printed))

received_on :
    (n x given : ℕ) (buff : List ℕ) (k : Link)
    → n < 26
    → 5 ≤ given
    → k ≡ answered_link n x buff
    → length (step (receives given) k).printed ≡ suc (length (texts n))
unfolding step
received_on n x given buff k h g e =
    ap (λ k. length (step (receives given) k).printed) e
    ∙ ap (λ (k : Link). length k.printed) (received_by n x given buff h g)
    ∙ one_more (texts n) _

round-IsOn :
    (k : Link) (given given' : ℕ)
    → 5 ≤ given
    → 5 ≤ given'
    → IsExchange k
    → IsOn k (run (round given given') k)
unfolding run step send_at receive_at answer_at nothing_at
round-IsOn k given given' g g' (asking n x buff h l) =
    inl (received_on n x given' _ _ h g' (answered_by n x given buff l g))
round-IsOn k given given' g g' (asked n x buff h l) =
    inl (received_on n x given' _ _ h g' (answered_by n x given buff l g))
round-IsOn k given given' g g' (answered n x buff h l) =
    inl (received_on n x given' buff _ h g' (sleeping (place_of (suc n)) given _))
round-IsOn k given given' g g' (over n sending buff out h) = inl (one_more (texts n) _)
round-IsOn k given given' g g' (over n receiving buff out h) = inl (one_more (texts n) _)
round-IsOn k given given' g g' (over n ended buff out h) = inr (refl, omega (arith, length-texts n))

-- Whoever moves, and when: if the network gives the five bytes of a message at once, the client has
-- printed the greeting with its second letter counted from A to Z, one letter a text, and with Z again
-- in every text behind the twenty-sixth; and a further round prints one text more, unless the client
-- has been ended by a `send` that broke, which is not before the twenty-sixth text.
pub stream_lem :
    (junk : List ℕ) (moves : List Move) (given given' : ℕ)
    → 5 ≤ length junk
    → All IsWhole moves
    → 5 ≤ given
    → 5 ≤ given'
    → let k = run moves (connected junk) in
      (k.printed ≡ texts (length k.printed)) × IsOn k (run (round given given') k)
stream_lem junk moves given given' l w g g' =
    let v =
      run-IsExchange moves (connected junk) w
        (unfold connected in asking 0 b'e' junk (omega arith) l) in
    (printed-texts _ v, round-IsOn _ given given' g g' v)
