-- ===== src/EchoServer/Examples.antt =====
-- Two clients that talk in turn.
use summer_school.Base.{◌≡◌, arith, List, [], ◌∷◌, ◌++◌, ℕ, some, replicate, refl}
use summer_school.Shell.{text_of}
use summer_school.SharedChat.{quit_bare}
use summer_school.EchoServer.TcpClient.{tcp_client}
use summer_school.EchoServer.TcpClient.Buffers.{IsWord}
use summer_school.EchoServer.TcpClient.Answers.{answers_to, tcp_client_lem}
use summer_school.EchoServer.{welcome, Server, Event, connect, receive, run}
use summer_school.EchoServer.Clients.{sent_by, received_by, answers, run-answers}

abbrev server : Server
server = record { buffer = []; children = λ k. 0 ∷ 0 ∷ 0 ∷ 0 ∷ []; count = 1 }

abbrev events : List Event
events = receive 0 (1 ∷ []) ∷ connect ∷ receive 1 (2 ∷ []) ∷ receive 0 (3 ∷ 4 ∷ 5 ∷ 6 ∷ []) ∷ []

run-answers_example :
    sent_by 0 (run events server).1 ≡ answers (server.children 0) (received_by 0 events)
run-answers_example = run-answers events server 0 (omega arith)

abbrev halloo : List ℕ
halloo = b'h' ∷ b'e' ∷ b'l' ∷ b'l' ∷ b'o' ∷ []

halloo-IsWord : IsWord halloo
halloo-IsWord = record {
  is_text = omega arith;
  long = omega arith;
  short = omega arith;
  stays = ground arith;
}

abbrev listening : Server
listening = record { buffer = replicate 256 0; children = λ k. []; count = 4 }

zeros_end : text_of (replicate 238 0) ≡ some []
unfolding text_of
zeros_end = refl

tcp_client_lem_example :
    tcp_client (halloo ∷ ((halloo ∷ halloo ∷ []) ++ quit_bare ∷ [])) (replicate 256 0) listening
    ≡ some ((welcome ++ []) ∷ answers_to halloo (halloo ∷ halloo ∷ []))
tcp_client_lem_example =
    tcp_client_lem halloo (replicate 256 0) [] (halloo ∷ halloo ∷ []) listening halloo-IsWord
      (omega arith) (halloo-IsWord, (halloo-IsWord, tt)) refl zeros_end refl
