-- ===== src/ChatFsm/Examples.antt =====
-- The chat server on concrete rounds (les21_FSM/src/server.c).
use summer_school.Base.{ℕ, ◌≡◌, refl, some, List, [], ◌∷◌, replicate, arith, overwrite}
use summer_school.ChatFsm.{
  wait_for_client, talking, Answer, started, main_loop, Msgbuf, Texts, message, datagram,
  worker_loop,
}
use summer_school.ChatFsm.Master.{IsMain, main_loop-IsMain}
use summer_school.ChatFsm.Worker.{waiting, echoes, worker_loop_session}

abbrev good : Answer
good = record { err = 0; from = 0 }

abbrev bad : Answer
bad = record { err = 13; from = 0 }

main_loop-IsMain_example : IsMain 5 (main_loop (good ∷ bad ∷ good ∷ []) (started 5))
main_loop-IsMain_example = main_loop-IsMain (good ∷ bad ∷ good ∷ []) 5

abbrev texts : Texts
texts = record { hello = b'H' ∷ b'e' ∷ 0 ∷ []; sorry = b'S' ∷ b'o' ∷ 0 ∷ [] }

abbrev empty_buffer : List ℕ
empty_buffer = replicate 256 0

abbrev seven : Msgbuf
seven = record { priority = 1; fd = 3; address = 7 }

worker_loop_session_example :
    let hello = overwrite empty_buffer texts.hello in
    (b : List ℕ) × (last : ℕ) × (worker_loop texts
        (message seven ∷ datagram (b'g' ∷ b'o' ∷ b'o' ∷ b'd' ∷ 0 ∷ []) 7 ∷ [])
        (waiting wait_for_client empty_buffer 0 0)
      ≡ some (
        waiting talking b last 0,
        record { to = 7; content = hello }
            ∷ echoes hello ((b'g' ∷ b'o' ∷ b'o' ∷ b'd' ∷ [], 7) ∷ []),
      ))
worker_loop_session_example =
    worker_loop_session texts empty_buffer 0 seven ((b'g' ∷ b'o' ∷ b'o' ∷ b'd' ∷ [], 7) ∷ []) refl
      (omega arith) (omega arith)
