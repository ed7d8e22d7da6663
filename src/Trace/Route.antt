-- ===== src/Trace/Route.antt =====
-- The course of the loop of the traceroute, les28_ping_tracert/src/tracert.c.
use summer_school.Base.{
  get_or, if◌then◌else◌, ℕ_discrete, ℕ, suc, ◌+◌, ◌%◌, ◌≡◌, ◌≢◌, refl, sym, ap, subst, ◌∙◌, true,
  false, List, [], ◌∷◌, ◌++◌, length, length-append, arith, All, ◌==◌, u8,
}
use mathlib.Core.List.{append-nil, append_assoc}
use summer_school.Trace.{
  Reply, Answer, timeout, received, Line, unknown, State, start, shown, turn, finished, probing,
  report, trace, result, hop, reached, unreachable,
}

-- The answer is none, or that of a router on the way.
abbrev pub Passes : Answer → Type 0
Passes timeout = Unit
Passes (received r sender) = r.kind ≡ 11

-- What the number of a probe and its answer print, and who gets the next probe.
abbrev pub line : ℕ → Answer → List Line
line n timeout = unknown n ∷ []
line n (received r sender) = shown n r

abbrev pub heir : ℕ → Answer → ℕ
heir addr timeout = addr
heir addr (received r sender) = sender

pub lines : ℕ → List Answer → List Line
lines n [] = []
lines n (a ∷ rest) = line n a ++ lines (n + 1) rest

-- The probes that get these answers, from a number on: the time to live is the number in eight bits,
-- and the packet goes to whoever sent the last answer.
pub probes : (n addr : ℕ) → List Answer → List (ℕ × ℕ)
probes n addr [] = []
probes n addr (a ∷ rest) = (n % 256, addr) ∷ probes (n + 1) (heir addr a) rest

-- One turn, whatever the answer.
abbrev pub last : Answer → Reply → Reply
last timeout r = r
last (received r sender) old = r

abbrev pub turned : Answer → State → State
turned a s = record s {
  ttl = u8 (s.ttl + 1);
  count = s.count + 1;
  addr = heir s.addr a;
  rcv = last a s.rcv;
  sent = s.sent ++ (s.ttl, s.addr) ∷ [];
  screen = s.screen ++ line s.count a;
}

turn-eq : (a : Answer) (s : State) → turn a s ≡ turned a s
unfolding turn
turn-eq timeout s = refl
turn-eq (received r sender) s = refl

-- The state after the answers.
abbrev pub after : List Answer → State → State
after [] s = s
after (a ∷ rest) s = after rest (turned a s)

-- What holds after some answers.
pub record HasRun (xs : List Answer) (s t : State) : Type 0 where
  pub counted : t.count ≡ s.count + length xs
  pub lives : t.ttl ≡ (s.count + length xs) % 256
  pub sends : t.sent ≡ s.sent ++ probes s.count s.addr xs
  pub prints : t.screen ≡ s.screen ++ lines s.count xs

after-HasRun : (xs : List Answer) (s : State) → s.ttl ≡ s.count % 256 → HasRun xs s (after xs s)
unfolding lines probes
after-HasRun [] s h = record {
  counted = omega arith;
  lives = omega arith;
  sends = sym (append-nil s.sent);
  prints = sym (append-nil s.screen);
}
after-HasRun (a ∷ xs) s h =
    let r = after-HasRun xs (turned a s) (omega arith) in
    record {
      counted = omega (arith, r.counted);
      lives = omega (arith, r.lives);
      sends =
          r.sends
          ∙ append_assoc s.sent ((s.ttl, s.addr) ∷ []) (probes (s.count + 1) (heir s.addr a) xs)
          ∙ ap (λ l. s.sent ++ (l, s.addr) ∷ probes (s.count + 1) (heir s.addr a) xs) h;
      prints = r.prints ∙ append_assoc s.screen (line s.count a) (lines (s.count + 1) xs);
    }

kind-turned : (a : Answer) (s : State) → Passes a → s.rcv.kind ≡ 11 → (turned a s).rcv.kind ≡ 11
kind-turned timeout s p h = h
kind-turned (received r sender) s p h = p

kind-after :
    (xs : List Answer) (s : State) → All Passes xs → s.rcv.kind ≡ 11 → (after xs s).rcv.kind ≡ 11
kind-after [] s p h = h
kind-after (a ∷ xs) s p h = kind-after xs (turned a s) p.1 (kind-turned a s p.0 h)

-- As long as the answers pass, the loop goes on.
trace-after :
    (xs ys : List Answer) (s : State)
    → All Passes xs
    → s.rcv.kind ≡ 11
    → trace (xs ++ ys) s ≡ trace ys (after xs s)
unfolding trace
trace-after [] ys s p h = refl
trace-after (a ∷ xs) ys s p h =
    let on : (s.rcv.kind == 11) ≡ true = ground arith in
    rw (on, turn-eq a s) (trace-after xs ys (turned a s) p.1 (kind-turned a s p.0 h))

after_last :
    (xs : List Answer) (a : Answer) (s : State) → after (xs ++ a ∷ []) s ≡ turned a (after xs s)
after_last [] a s = refl
after_last (x ∷ xs) a s = after_last xs a (turned x s)

trace_end : (ys : List Answer) (s : State) → s.rcv.kind ≢ 11 → trace ys s ≡ finished (report s)
unfolding trace report
trace_end [] s d = let off : (s.rcv.kind == 11) ≡ false = ground arith in rw off refl
trace_end (a ∷ ys) s d = let off : (s.rcv.kind == 11) ≡ false = ground arith in rw off refl

length-probes : (n addr : ℕ) (xs : List Answer) → length (probes n addr xs) ≡ length xs
unfolding probes
length-probes n addr [] = refl
length-probes n addr (a ∷ xs) = ap (λ k. suc k) (length-probes (n + 1) (heir addr a) xs)

-- The line of an address, whose four bytes are shown from the last to the first.
abbrev pub of_address : (ℕ → ℕ → ℕ → ℕ → Line) → List ℕ → List Line
of_address f (a ∷ b ∷ c ∷ d ∷ []) = f d c b a ∷ []
of_address f _ = []

-- The lines of the answers on the way.
pub hops : ℕ → List Answer → List Line
hops n [] = []
hops n (timeout ∷ xs) = unknown n ∷ hops (n + 1) xs
hops n (received r sender ∷ xs) = of_address (hop n) r.saddr ++ hops (n + 1) xs

-- The line of the last answer: the target's, by the type of an echo reply; one that it is
-- unreachable; and none for any other type.
abbrev pub ending : ℕ → Reply → List Line
ending n r =
    if r.kind == 0
    then of_address (reached n) r.saddr
    else if r.kind == 3
    then unreachable n ∷ []
    else []

abbrev pub HasAddress : Answer → Type 0
HasAddress timeout = Unit
HasAddress (received r sender) = length r.saddr ≡ 4

of_address-eq :
    (f : ℕ → ℕ → ℕ → ℕ → Line) (xs : List ℕ)
    → length xs ≡ 4
    → f (get_or xs 3 0) (get_or xs 2 0) (get_or xs 1 0) (get_or xs 0 0) ∷ [] ≡ of_address f xs
of_address-eq f [] h = absurd (omega arith)
of_address-eq f (a ∷ []) h = absurd (omega arith)
of_address-eq f (a ∷ b ∷ []) h = absurd (omega arith)
of_address-eq f (a ∷ b ∷ c ∷ []) h = absurd (omega arith)
of_address-eq f (a ∷ b ∷ c ∷ d ∷ []) h = refl
of_address-eq f (a ∷ b ∷ c ∷ d ∷ e ∷ xs) h = absurd (omega arith)

shown-hop :
    (n : ℕ) (r : Reply) → r.kind ≡ 11 → length r.saddr ≡ 4 → shown n r ≡ of_address (hop n) r.saddr
unfolding shown
shown-hop n r k l =
    let yes_hop : (r.kind == 11) ≡ true = ground arith in
    rw yes_hop (of_address-eq (hop n) r.saddr l)

shown-ending : (n : ℕ) (r : Reply) → r.kind ≢ 11 → length r.saddr ≡ 4 → shown n r ≡ ending n r
unfolding shown
shown-ending n r k l =
    let no_hop : (r.kind == 11) ≡ false = ground arith in
    elim (ℕ_discrete r.kind 0) [
      | yes z ↦
          let is0 : (r.kind == 0) ≡ true = ground arith in
          let not3 : (r.kind == 3) ≡ false = ground arith in
          rw (no_hop, not3, is0) (of_address-eq (reached n) r.saddr l)
      | no z ↦ let not0 : (r.kind == 0) ≡ false = ground arith in rw (no_hop, not0) refl
    ]

lines-hops :
    (n : ℕ) (xs : List Answer) (r : Reply) (sender : ℕ)
    → All Passes xs
    → All HasAddress xs
    → r.kind ≢ 11
    → length r.saddr ≡ 4
    → lines n (xs ++ received r sender ∷ []) ≡ hops n xs ++ ending (n + length xs) r
unfolding lines hops
lines-hops n [] r sender p q k l =
    append-nil (shown n r)
    ∙ shown-ending n r k l
    ∙ ap (λ m. ending m r) {x = n} {y = n + 0} (omega arith)
lines-hops n (timeout ∷ xs) r sender p q k l =
    ap (λ l. unknown n ∷ l)
      (lines-hops (n + 1) xs r sender p.1 q.1 k l
        ∙ ap (λ m. hops (n + 1) xs ++ ending m r) (omega arith))
lines-hops n (received t from ∷ xs) r sender p q k l =
    ap (λ s. s ++ lines (n + 1) (xs ++ received r sender ∷ [])) (shown-hop n t p.0 q.0)
    ∙ ap (λ l. of_address (hop n) t.saddr ++ l)
        (lines-hops (n + 1) xs r sender p.1 q.1 k l
          ∙ ap (λ m. hops (n + 1) xs ++ ending m r) (omega arith))
    ∙ sym (append_assoc (of_address (hop n) t.saddr) (hops (n + 1) xs) _)

-- If routers on the way answer some probes, or nobody does, and then an answer of another type comes,
-- the traceroute ends there, whatever would come later. It has sent one probe for each of these
-- answers, with the times to live 1, 2 and so on in eight bits: the first to the target and each
-- later one to whoever sent the last answer. It has printed a line with its number for each but the
-- last, with the four bytes of a router's address from the last to the first; then for the last one
-- the same if it has type 0, that the target is unreachable if it has type 3, and nothing if it has any
-- other type; and then the result.
pub trace_lem :
    (target code : ℕ) (saddr : List ℕ) (xs ys : List Answer) (r : Reply) (sender : ℕ)
    → All Passes xs
    → All HasAddress xs
    → r.kind ≢ 11
    → length r.saddr ≡ 4
    → (s : State) × (trace (xs ++ received r sender ∷ ys) (start target code saddr) ≡ finished s)
      × (length s.sent ≡ length xs + 1)
      × (s.sent ≡ probes 1 target (xs ++ received r sender ∷ []))
      × (s.screen ≡ hops 1 xs ++ (ending (1 + length xs) r ++ result r.code r.kind ∷ []))
unfolding start report trace
trace_lem target code saddr xs ys r sender p q d l =
    let a = received r sender in
    let s = after xs (start target code saddr) in
    let on : (s.rcv.kind == 11) ≡ true =
      ap (λ k. k == 11) (kind-after xs (start target code saddr) p refl) in
    let run : HasRun (xs ++ a ∷ []) (start target code saddr) (turned a s) =
      subst (λ t. HasRun (xs ++ a ∷ []) (start target code saddr) t)
        (after_last xs a (start target code saddr))
        (after-HasRun (xs ++ a ∷ []) (start target code saddr) refl) in
    (
      report (turned a s),
      trace-after xs (a ∷ ys) (start target code saddr) p refl
          ∙ rw (on, turn-eq a s) (trace_end ys (turned a s) d),
      ap length run.sends ∙ length-probes 1 target (xs ++ a ∷ []) ∙ length-append xs (a ∷ []),
      run.sends,
      ap (λ l. l ++ result r.code r.kind ∷ []) (run.prints ∙ lines-hops 1 xs r sender p q d l)
          ∙ append_assoc (hops 1 xs) (ending (1 + length xs) r) (result r.code r.kind ∷ []),
    )

-- As long as every answer is none or that of a router, the next probe is under way, without a limit:
-- it has been preceded by one probe for each answer, and its time to live is its number in eight
-- bits, so that of the 256th probe is 0.
pub trace_on :
    (target code : ℕ) (saddr : List ℕ) (xs : List Answer)
    → All Passes xs
    → (s : State) × (trace xs (start target code saddr) ≡ probing s)
      × (length s.sent ≡ length xs)
      × (s.ttl ≡ (length xs + 1) % 256)
unfolding start trace
trace_on target code saddr xs p =
    let s = start target code saddr in
    let run = after-HasRun xs s refl in
    let on = kind-after xs s p refl in
    let still : ((after xs s).rcv.kind == 11) ≡ true = ground arith in
    (
      after xs s,
      ap (λ l. trace l s) (sym (append-nil xs)) ∙ trace-after xs [] s p refl ∙ rw still refl,
      ap length run.sends ∙ length-probes 1 target xs,
      omega (arith, run.lives),
    )
