-- ===== src/Trace.antt =====
-- The traceroute, les28_ping_tracert/src/tracert.c. What `inet_addr` gives for the addresses, and the
-- answer to each probe, are arguments; `count` is an `int` that stays below its bound.
pub mod Probe
pub mod Route
mod Examples
use summer_school.Base.{
  ℕ, ◌+◌, Option, List, [], ◌∷◌, ◌++◌, get_or, replicate, ◌>>=◌, ◌==◌, if◌then◌else◌, u8,
}
use summer_school.Packet.{Put, char, short, int, htons, sealed}

-- `bzero(&pck, sizeof(pck))`
abbrev pub blank : List ℕ
blank = replicate 28 0

abbrev pub ip_header : (source target : ℕ) → List Put
ip_header source target =
    char 0 0x45
    ∷ char 1 0
    ∷ short 2 (htons (20 + 256 + 8))
    ∷ short 4 (htons 4267)
    ∷ char 6 0x40
    ∷ char 7 0
    ∷ char 8 1
    ∷ char 9 1
    ∷ short 10 0
    ∷ int 12 source
    ∷ int 16 target
    ∷ []

-- `pck.icmp.type` and `pck.icmp.code`
abbrev pub echo_request : List Put
echo_request = char 20 8 ∷ char 21 0 ∷ []

-- The packet of the first probe.
pub packet : (source target : ℕ) → Option (List ℕ)
packet source target = do
  pck ← sealed (ip_header source target) 0 10 20 [] blank
  sealed echo_request 20 22 28 [] pck

-- What the loop reads of `rcv`: the ICMP header and the bytes of the sender's address.
pub record Reply : Type 0 where
  pub kind : ℕ
  pub code : ℕ
  pub saddr : List ℕ

-- What comes of a probe: `poll` gives 0, or `recvfrom` gives a reply and its sender's address.
pub data Answer : Type 0 where
  timeout : Answer
  received : Reply → (sender : ℕ) → Answer

-- The lines that are printed.
pub data Line : Type 0 where
  hop : (count a b c d : ℕ) → Line
  unreachable : (count : ℕ) → Line
  reached : (count a b c d : ℕ) → Line
  unknown : (count : ℕ) → Line
  result : (code kind : ℕ) → Line

-- The loop's variables: the field `ttl` of the packet, the address that `sendto` gets, the last reply,
-- and what has been sent (with its time to live) and printed.
pub record State : Type 0 where
  pub ttl : ℕ
  pub count : ℕ
  pub addr : ℕ
  pub rcv : Reply
  pub sent : List (ℕ × ℕ)
  pub screen : List Line

-- `rcv.icmp.type = 11` is all that is set of `rcv`; the rest is what the stack holds.
pub start : (target code : ℕ) → (saddr : List ℕ) → State
start target its_code its_saddr = record {
  ttl = 1;
  count = 1;
  addr = target;
  rcv = record { kind = 11; code = its_code; saddr = its_saddr };
  sent = [];
  screen = [];
}

-- The `switch`: an answer of another type prints nothing.
pub shown : (count : ℕ) → Reply → List Line
shown n r =
    let a = get_or r.saddr 3 0 in
    let b = get_or r.saddr 2 0 in
    let c = get_or r.saddr 1 0 in
    let d = get_or r.saddr 0 0 in
    if r.kind == 11
    then hop n a b c d ∷ []
    else if r.kind == 3
    then unreachable n ∷ []
    else if r.kind == 0
    then reached n a b c d ∷ []
    else []

-- The body of the loop. `recvfrom` stores the sender's address in `addr`.
pub turn : Answer → State → State
unfolding shown
turn timeout s = record s {
  ttl = u8 (s.ttl + 1);
  count = s.count + 1;
  sent = s.sent ++ (s.ttl, s.addr) ∷ [];
  screen = s.screen ++ unknown s.count ∷ [];
}
turn (received r sender) s = record s {
  ttl = u8 (s.ttl + 1);
  count = s.count + 1;
  addr = sender;
  rcv = r;
  sent = s.sent ++ (s.ttl, s.addr) ∷ [];
  screen = s.screen ++ shown s.count r;
}

-- After `Res code`, or a probe under way.
pub data Outcome : Type 0 where
  finished probing : State → Outcome

pub report : State → State
report s = record s { screen = s.screen ++ result s.rcv.code s.rcv.kind ∷ [] }

-- The loop, with the answers that come.
pub trace : List Answer → State → Outcome
unfolding turn report
trace [] s = if s.rcv.kind == 11 then probing s else finished (report s)
trace (a ∷ rest) s =
    let later = trace rest (turn a s) in if s.rcv.kind == 11 then later else finished (report s)
