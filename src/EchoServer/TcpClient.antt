-- ===== src/EchoServer/TcpClient.antt =====
-- A client of the server, les20_multiclient_chat/src/client.c, `tcpClient`: its words go to one child,
-- and each `recv` takes the next message that the child has sent. `none` is an access outside a buffer.
pub mod Buffers
pub mod Answers
use summer_school.Base.{
  ℕ, ◌+◌, Option, none, some, List, [], ◌∷◌, ◌++◌, ltb, if◌then◌else◌, ◌>>=◌, overwrite, length,
  map,
}
use summer_school.Shell.{text_of}
use summer_school.SharedChat.{same_text, quit_bare}
use summer_school.EchoServer.{Event, connect, receive, Server, Sent, handle}

-- `scanf("%s", buffer)`
pub scan_word : (word buffer : List ℕ) → Option (List ℕ)
scan_word word buffer =
    if ltb (length word) 256 then some (overwrite buffer (word ++ 0 ∷ [])) else none

-- What the child sends in its turn.
abbrev pub contents_of : List Sent → List (List ℕ)
contents_of sent = map (λ m. m.bytes) sent

-- `recv` and `printf`, and then what comes behind them, with the text, the buffer, and what is still on
-- its way. With nothing on its way the client sleeps, and prints no more.
abbrev pub after_recv :
    (waiting : List (List ℕ))
    → (buffer : List ℕ) → ((text filled : List ℕ) → List (List ℕ) → Option (List (List ℕ)))
    → Option (List (List ℕ))
after_recv [] buffer goes_on = some []
after_recv (m ∷ waiting) buffer goes_on =
    text_of (overwrite buffer m) >>= λ text. goes_on text (overwrite buffer m) waiting

-- The loop, over the words that are typed: the texts that are printed. `k` is the child of this client.
pub talk_on :
    (k : ℕ)
    → (words : List (List ℕ)) → (buffer : List ℕ) → (waiting : List (List ℕ)) → Server
    → Option (List (List ℕ))
talk_on k [] buffer waiting s = some []
talk_on k (word ∷ words) buffer waiting s = do
  typed ← scan_word word buffer
  said ← text_of typed
  let (s', sent) = handle (receive k typed) s
  let more =
      after_recv (waiting ++ contents_of sent) typed
        λ text filled left. talk_on k words filled left s' >>= λ texts. some (text ∷ texts)
  if same_text said quit_bare then some [] else more

-- `connect`, and the loop.
pub tcp_client : (words : List (List ℕ)) → (junk : List ℕ) → Server → Option (List (List ℕ))
tcp_client words junk s =
    let (s', sent) = handle connect s in talk_on s.count words junk (contents_of sent) s'
