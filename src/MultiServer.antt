-- ===== src/MultiServer.antt =====
-- The server of two protocols, les22_multiprotocol_server/src/server.c, waiting by `epoll`, `poll` or
-- `select`. The queues are what the kernel holds for the two sockets; when nothing waits a round
-- changes nothing, as the wait does not return.
pub mod Rounds
mod Examples
use summer_school.Base.{
  ℕ, zero, suc, Bool, Option, none, some, List, [], ◌∷◌, ◌++◌, ◌==◌, if◌then◌else◌, set, overwrite,
}

pub record Datagram : Type 0 where
  pub from : ℕ
  pub content : List ℕ

pub record Reply : Type 0 where
  pub to : ℕ
  pub content : List ℕ

-- The buffer of a server, `errno`, what waits at the sockets and on the terminal, and what was sent.
-- A connection is the bytes that its first `recv` gets.
pub record Server : Type 0 where
  pub buffer : List ℕ
  pub errno : ℕ
  pub udp : List Datagram
  pub tcp : List (List ℕ)
  pub stdin : List ℕ
  pub udp_sent : List Reply
  pub tcp_sent : List (List ℕ)

-- "HOLA_" over the first five bytes.
pub hola : List ℕ → List ℕ
hola b = set (set (set (set (set b 0 b'H') 1 b'O') 2 b'L') 3 b'A') 4 b'_'

-- The branch of the UDP socket in `server_on_poll` and `server_on_epoll`, by what waits there: `recvfrom`, "HOLA_", `sendto`.
pub answer_udp : List Datagram → Server → Server
answer_udp [] s = s
answer_udp (d ∷ waiting) s =
    let b = hola (overwrite s.buffer d.content) in
    record s {
      buffer = b;
      udp = waiting;
      udp_sent = s.udp_sent ++ record { to = d.from; content = b } ∷ [];
    }

-- The branch of the TCP socket there: `accept`, `recv`, "HOLA_", `send`, `close`.
pub answer_tcp : List (List ℕ) → Server → Server
answer_tcp [] s = s
answer_tcp (c ∷ waiting) s =
    let b = hola (overwrite s.buffer c) in
    record s { buffer = b; tcp = waiting; tcp_sent = s.tcp_sent ++ b ∷ [] }

-- The branches that `server_on_select` has of its own: the UDP socket, then the TCP socket.
pub select_udp : List Datagram → Server → Server
select_udp [] s = s
select_udp (d ∷ waiting) s =
    let received = overwrite s.buffer d.content in
    let marked = hola received in
    record s {
      buffer = marked;
      udp = waiting;
      udp_sent = s.udp_sent ++ record { to = d.from; content = marked } ∷ [];
    }

pub select_tcp : List (List ℕ) → Server → Server
select_tcp [] s = s
select_tcp (c ∷ waiting) s =
    let marked = hola (overwrite s.buffer c) in
    record s { buffer = marked; tcp = waiting; tcp_sent = s.tcp_sent ++ marked ∷ [] }

-- The branch of the terminal in `server_on_select`.
pub read_stdin : List ℕ → Server → Server
read_stdin [] s = s
read_stdin (c ∷ waiting) s = record s { buffer = set s.buffer 0 c; stdin = waiting }

-- The socket of `events[0]`; when both are ready the kernel picks it.
pub data Socket : Type 0 where
  udp_sock tcp_sock : Socket

pub first_event : Socket → List Datagram → List (List ℕ) → Option Socket
first_event pick [] [] = none
first_event pick (d ∷ ds) [] = some udp_sock
first_event pick [] (c ∷ cs) = some tcp_sock
first_event pick (d ∷ ds) (c ∷ cs) = some pick

pub epoll_round : Socket → Server → Server
epoll_round pick s = elim (first_event pick s.udp s.tcp) [
  | none ↦ s
  | some udp_sock ↦ answer_udp s.udp s
  | some tcp_sock ↦ answer_tcp s.tcp s
]

-- `server_on_epoll` from its `for`, which looks at `errno` first. The rounds left number the picks.
pub epoll_loop : ℕ → (ℕ → Socket) → Server → Server
epoll_loop zero pick s = s
epoll_loop (suc n) pick s =
    let rest = epoll_loop n pick (epoll_round (pick n) s) in if s.errno == 0 then rest else s

pub poll_round : Server → Server
poll_round s = answer_tcp s.tcp (answer_udp s.udp s)

-- `server_on_poll` from its `for`.
pub poll_loop : ℕ → Server → Server
poll_loop zero s = s
poll_loop (suc n) s = poll_loop n (poll_round s)

pub select_round : Server → Server
select_round s = read_stdin s.stdin (select_tcp s.tcp (select_udp s.udp s))

-- `server_on_select` from its `for`.
pub select_loop : ℕ → Server → Server
select_loop zero s = s
select_loop (suc n) s = select_loop n (select_round s)

-- The words of the command line.
pub data Mode : Type 0 where
  epoll poll select none_of_them : Mode

-- `main`: each server makes ten rounds.
pub serve : Mode → (ℕ → Socket) → Server → Server
serve epoll pick s = epoll_loop 10 pick s
serve poll pick s = poll_loop 10 s
serve select pick s = select_loop 10 s
serve none_of_them pick s = s
