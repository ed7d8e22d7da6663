-- ===== src/EchoServer.antt =====
-- The server that forks for each client, les20_multiclient_chat/src/server.c, `tcpServer`: a child has
-- its own copy of the buffer of 256 bytes and its own connection. What clients do comes in any order.
-- A `recv` that fails or gets nothing leaves the old text in the buffer, which is answered again.
pub mod Clients
pub mod TcpClient
mod Examples
use summer_school.Base.{
  ℕ, zero, suc, ◌+◌, List, [], ◌∷◌, ◌++◌, ltb, ◌==◌, if◌then◌else◌, put, set, overwrite,
}

-- "You are connected!", without its zero byte.
abbrev pub welcome : List ℕ
welcome =
    b'Y' ∷ b'o' ∷ b'u' ∷ 32 ∷ b'a' ∷ b'r' ∷ b'e' ∷ 32 ∷ b'c' ∷ b'o' ∷ b'n' ∷ b'n' ∷ b'e' ∷ b'c'
    ∷ b't' ∷ b'e' ∷ b'd' ∷ b'!' ∷ []

-- What happens to the server: a client connects, or sends to its child; the number is the child's.
pub data Event : Type 0 where
  connect : Event
  receive : ℕ → List ℕ → Event

-- The parent's buffer, which it never writes, the children's buffers, and how many there are.
pub record Server : Type 0 where
  pub buffer : List ℕ
  pub children : ℕ → List ℕ
  pub count : ℕ

-- What goes out: to the client of which child, and the bytes.
pub record Sent : Type 0 where
  pub child : ℕ
  pub bytes : List ℕ

-- "AZ_" over what was received.
pub stamp : List ℕ → List ℕ
stamp b = set (set (set b 0 b'A') 1 b'Z') 2 b'_'

-- `accept`, `fork` and the child's first `send`; or one round of a child's loop.
pub handle : Event → Server → Server × List Sent
handle connect s = (
  record s { children = put s.children s.count s.buffer; count = s.count + 1 },
  record { child = s.count; bytes = welcome } ∷ [],
)
handle (receive k content) s =
    let b = stamp (overwrite (s.children k) content) in
    if ltb k s.count
    then (record s { children = put s.children k b }, record { child = k; bytes = b } ∷ [])
    else (s, [])

pub run : List Event → Server → Server × List Sent
run [] s = (s, [])
run (e ∷ events) s =
    let (s₁, first) = handle e s in let (s₂, more) = run events s₁ in (s₂, first ++ more)
