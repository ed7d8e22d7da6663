-- ===== src/SharedChat/Delivery.antt =====
-- Every message reaches every client once, les17_shared_memory.
use summer_school.Base.{ℕ, ◌+◌, ◌≤◌, ◌<◌, ◌≡◌, refl, List, [], ◌∷◌, All, arith, length}
use summer_school.SharedChat.{
  Semop, World, start, Move, server_moves, types, enters, writes, draws, step, run,
}
use summer_school.SharedChat.Semaphores.{IsSemop}
use summer_school.SharedChat.Counts.{shown, due, IsChat, IsMove}
use summer_school.SharedChat.Bounds.{Few-step}
use summer_school.SharedChat.ServerMoves.{server_at-IsChat}
use summer_school.SharedChat.ClientMoves.{type_line-IsChat, enter-IsChat, write-IsChat, draw-IsChat}

module _ (semop : Semop) (nickname : ℕ → List ℕ) (law : IsSemop semop) where
  step-IsChat :
      (m : Move) (w : World)
      → IsMove m
      → IsChat w
      → w.messages < 32767
      → IsChat (step semop nickname m w)
  unfolding step
  step-IsChat server_moves w h v few = server_at-IsChat semop nickname law w.server w v refl few
  step-IsChat (types c msg) w h v few = type_line-IsChat semop nickname law (w.reader c) c msg w v
  step-IsChat (enters c) w h v few = enter-IsChat semop nickname law (w.reader c) c w v
  step-IsChat (writes c) w h v few = write-IsChat semop nickname law (w.reader c) c w v
  step-IsChat (draws c) w h v few = draw-IsChat semop nickname law c w h v

  run-IsChat :
      (ms : List Move) (w : World)
      → All IsMove ms
      → IsChat w
      → w.messages + length ms ≤ 32767
      → IsChat (run semop nickname ms w)
  unfolding run
  run-IsChat [] w h v few = v
  run-IsChat (m ∷ ms) w h v few =
      run-IsChat ms (step semop nickname m w) h.1 (step-IsChat m w h.0 v (omega arith))
        (omega (arith, Few-step semop nickname m w))

  -- From new semaphores, after any moves of the threads in any order, fewer than 32768 and with the
  -- numbers of clients that the server hands out: if semaphore 1 is 0, the server has been through every
  -- message that was let in, and each client that has a semaphore has printed, or has still to print,
  -- exactly as many texts.
  pub run_lem :
      (text : List ℕ) (ms : List Move) (i : ℕ)
      → All IsMove ms
      → length ms ≤ 32767
      → 2 ≤ i
      → i < 12
      → (run semop nickname ms (start text)).sems 1 ≡ 0
      → ((run semop nickname ms (start text)).messages
          ≡ (run semop nickname ms (start text)).entered)
        × (due (run semop nickname ms (start text)) i
              + shown i (run semop nickname ms (start text)).screen
            ≡ (run semop nickname ms (start text)).entered)
  unfolding start
  run_lem text ms i h few a b shut =
      let first : IsChat (start text) = record {
        gate = omega arith;
        closed = omega arith;
        place = tt;
        accepted = refl;
        slots = λ i a b. ground arith;
      } in
      let w = run semop nickname ms (start text) in
      let v : IsChat w = run-IsChat ms (start text) h first (omega arith) in
      (omega (arith, v.accepted, v.closed), ground (arith, v.slots i a b, v.accepted, v.closed))
