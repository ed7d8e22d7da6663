-- ===== src/Sockets/Datagrams.antt =====
-- The answers to datagrams: les19_sockets/src, `udpServer` and `udpclient`.
use summer_school.Base.{
  ℕ, zero, suc, ◌+◌, ◌≤◌, ◌≡◌, refl, ap, ◌∙◌, Option, some, List, [], ◌∷◌, ◌++◌, length, arith,
  drop, overwrite, replicate, map,
}
use summer_school.Packet.Strings.{overwrite-append}
use summer_school.Sockets.{hello, udp_rounds, udp_server, udp_client}
use summer_school.Sockets.Stream.{hello_with, text_of-hello_with}

-- The answer of round `i`: the greeting, and what stood in the buffer behind it.
abbrev pub reply : (i : ℕ) → (rest : List ℕ) → List ℕ
reply i rest = hello_with (b'A' + i) ++ (replicate 11 0 ++ rest)

abbrev pub replies : (count i : ℕ) → (rest : List ℕ) → List (List ℕ)
replies zero i rest = []
replies (suc count) i rest = reply i rest ∷ replies count (i + 1) rest

udp_rounds-hello :
    (left count i : ℕ) (buff rest : List ℕ)
    → count ≤ left
    → 25 ≤ length buff
    → drop 25 buff ≡ rest
    → udp_rounds left i buff (replicate count hello) ≡ replies count i rest
unfolding udp_rounds
udp_rounds-hello zero zero i buff rest h l e = refl
udp_rounds-hello zero (suc count) i buff rest h l e = absurd (omega arith)
udp_rounds-hello (suc left) zero i buff rest h l e = refl
udp_rounds-hello (suc left) (suc count) i buff rest h l e =
    let stored : overwrite buff hello ≡ hello ++ rest =
      overwrite-append buff hello l ∙ ap (λ d. hello ++ d) e in
    rw
      (
        stored,
        udp_rounds-hello left count (i + 1) (reply i rest) rest (omega arith) (omega arith) refl,
      )
      refl

abbrev pub prints : (count i : ℕ) → List (Option (List ℕ))
prints zero i = []
prints (suc count) i = some (hello_with (b'A' + i)) ∷ prints count (i + 1)

udp_client-replies :
    (count i : ℕ) (rest : List ℕ) → map udp_client (replies count i rest) ≡ prints count i
udp_client-replies zero i rest = refl
udp_client-replies (suc count) i rest =
    let text : udp_client (reply i rest) ≡ some (hello_with (b'A' + i)) =
      unfold udp_client overwrite in text_of-hello_with (b'A' + i) (omega arith) in
    rw (text, udp_client-replies count (i + 1) rest) refl

-- Up to 26 clients that ask once: the client of round `i` prints the greeting with its second letter
-- counted from A on, and the server sends, behind the 25 bytes that it has got, what its buffer held
-- before the program began.
pub datagrams_lem :
    (count : ℕ) (junk : List ℕ)
    → count ≤ 26
    → length junk ≡ 256
    → (udp_server junk (replicate count hello) ≡ replies count 0 (drop 25 junk))
      × (map udp_client (udp_server junk (replicate count hello)) ≡ prints count 0)
unfolding udp_server
datagrams_lem count junk h l =
    let sent = udp_rounds-hello 26 count 0 junk (drop 25 junk) h (omega arith) refl in
    (sent, ap (map udp_client) sent ∙ udp_client-replies count 0 (drop 25 junk))
