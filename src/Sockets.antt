-- ===== src/Sockets.antt =====
-- The two programs of les19_sockets/src, server.c and client.c: `tcpServer` with `tcpclient`, as moves in
-- any order, and `udpServer` with `udpclient`. Of a connection the model has the bytes on their way.
pub mod Datagrams
pub mod Stream
mod Examples
use summer_school.Base.{
  ℕ, zero, suc, ◌+◌, Option, List, [], ◌∷◌, ◌++◌, ltb, if◌then◌else◌, set, overwrite, take, drop,
  replicate,
}
use summer_school.Shell.{text_of}

-- `char buff[25] = "Hello world :3"`
abbrev pub hello : List ℕ
hello =
    b'H'
    ∷ b'e'
    ∷ b'l'
    ∷ b'l'
    ∷ b'o'
    ∷ 32
    ∷ b'w'
    ∷ b'o'
    ∷ b'r'
    ∷ b'l'
    ∷ b'd'
    ∷ 32
    ∷ b':'
    ∷ b'3'
    ∷ replicate 11 0

-- `buff[1] = 'A' + i`
abbrev pub mark : ℕ → List ℕ → List ℕ
mark i buff = set buff 1 (b'A' + i)

-- The loop of `udpServer`, with the rounds that are left, over the datagrams that come: what it sends.
pub udp_rounds : (left i : ℕ) → (buff : List ℕ) → List (List ℕ) → List (List ℕ)
udp_rounds zero i buff datagrams = []
udp_rounds (suc left) i buff [] = []
udp_rounds (suc left) i buff (d ∷ datagrams) =
    let marked = mark i (overwrite buff d) in marked ∷ udp_rounds left (i + 1) marked datagrams

-- `junk` is what `buff` holds before the loop.
pub udp_server : (junk : List ℕ) → List (List ℕ) → List (List ℕ)
unfolding udp_rounds
udp_server junk datagrams = udp_rounds 26 0 junk datagrams

-- The text that `udpclient` prints of an answer.
pub udp_client : (reply : List ℕ) → Option (List ℕ)
unfolding text_of
udp_client reply = text_of (overwrite hello reply)

-- Where `tcpclient` is: before `send`, in `recv`, or ended by a signal.
pub data Client : Type 0 where
  sending receiving ended : Client

-- Where `tcpServer` is: in the `recv` of round `i`, or at its end.
pub data Server : Type 0 where
  listening : (i : ℕ) → Server
  gone : Server

pub record Link : Type 0 where
  pub client : Client
  pub server : Server
  pub client_buff : List ℕ
  pub server_buff : List ℕ
  pub to_server : List ℕ
  pub to_client : List ℕ
  pub printed : List (Option (List ℕ))

-- Who moves; a `recv` takes as many bytes as the network gives at once. A `send` to a server that is
-- at its end may go through or break, which ends the client.
pub data Move : Type 0 where
  sends breaks : Move
  receives answers : (given : ℕ) → Move

-- The `send` of `tcpclient`.
pub send_at : Client → Link → Link
send_at sending k = record k { client = receiving; to_server = k.to_server ++ take 5 k.client_buff }
send_at receiving k = k
send_at ended k = k

pub break_at : Server → Client → Link → Link
break_at gone sending k = record k { client = ended }
break_at _ _ k = k

-- A `recv` with no byte on its way: it sleeps, or at the end of the server it stores nothing and what
-- the buffer holds is printed.
pub nothing_at : Server → Link → Link
unfolding text_of
nothing_at (listening i) k = k
nothing_at gone k = record k { client = sending; printed = k.printed ++ text_of k.client_buff ∷ [] }

-- The `recv` of 5 bytes of `tcpclient`, and what it prints.
pub receive_at : Client → (given : ℕ) → (waiting : List ℕ) → Link → Link
unfolding text_of nothing_at
receive_at sending given waiting k = k
receive_at ended given waiting k = k
receive_at receiving given [] k = nothing_at k.server k
receive_at receiving given (c ∷ cs) k =
    let got = take given (take 5 (c ∷ cs)) in
    let buff = overwrite k.client_buff got in
    record k {
      client = sending;
      client_buff = buff;
      to_client = drop given (take 5 (c ∷ cs)) ++ drop 5 (c ∷ cs);
      printed = k.printed ++ text_of buff ∷ [];
    }

-- A round of `tcpServer`.
pub answer_at : Server → (given : ℕ) → (waiting : List ℕ) → Link → Link
answer_at gone given waiting k = k
answer_at (listening i) given [] k = k
answer_at (listening i) given (c ∷ cs) k =
    let got = take given (take 256 (c ∷ cs)) in
    let buff = mark i (overwrite k.server_buff got) in
    record k {
      server = if ltb (i + 1) 26 then listening (i + 1) else gone;
      server_buff = buff;
      to_server = drop given (take 256 (c ∷ cs)) ++ drop 256 (c ∷ cs);
      to_client = k.to_client ++ take 5 buff;
    }

pub step : Move → Link → Link
unfolding send_at break_at receive_at answer_at
step sends k = send_at k.client k
step breaks k = break_at k.server k.client k
step (receives given) k = receive_at k.client given k.to_client k
step (answers given) k = answer_at k.server given k.to_server k

pub run : List Move → Link → Link
unfolding step
run [] k = k
run (m ∷ moves) k = run moves (step m k)

-- The connection is made.
unfoldable pub connected : (junk : List ℕ) → Link
connected junk = record {
  client = sending;
  server = listening 0;
  client_buff = hello;
  server_buff = junk;
  to_server = [];
  to_client = [];
  printed = [];
}
