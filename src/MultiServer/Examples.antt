-- ===== src/MultiServer/Examples.antt =====
-- The server of two protocols with two datagrams and a connection waiting.
use summer_school.Base.{◌+◌, ◌-◌, ◌≡◌, refl, min, [], ◌∷◌}
use summer_school.MultiServer.{Server, tcp_sock, epoll_loop, poll_loop}
use summer_school.MultiServer.Rounds.{IsServed, poll_loop-IsServed, pending, sent, epoll_loop_lem}

abbrev busy : Server
busy = record {
  buffer = 0 ∷ 0 ∷ 0 ∷ 0 ∷ 0 ∷ 0 ∷ [];
  errno = 0;
  udp = record { from = 5; content = 1 ∷ [] } ∷ record { from = 6; content = 2 ∷ [] } ∷ [];
  tcp = (7 ∷ 8 ∷ []) ∷ [];
  stdin = [];
  udp_sent = [];
  tcp_sent = [];
}

poll_loop-IsServed_example : IsServed 10 busy (poll_loop 10 busy)
poll_loop-IsServed_example = poll_loop-IsServed 10 busy

epoll_loop_lem_example :
    (pending (epoll_loop 2 (λ n. tcp_sock) busy) ≡ 3 - 2)
    × (sent (epoll_loop 2 (λ n. tcp_sock) busy) ≡ 0 + min 2 3)
epoll_loop_lem_example = epoll_loop_lem 2 (λ n. tcp_sock) busy refl

abbrev typed : Server
typed = record busy { stdin = 97 ∷ 10 ∷ [] }
