-- ===== src/SharedChat/Bounds.antt =====
-- How many messages the server of les17_shared_memory takes up.
use summer_school.Base.{
  ℕ, ◌+◌, ◌≤◌, Bool, true, false, Option, none, some, List, [], ◌∷◌, ◌++◌, ltb, ◌||◌, if◌then◌else◌,
  put, arith,
}
use summer_school.SharedChat.{
  up, down, wait_zero, Semop, Server, listening, checking, stopped, raising, Reader, typing, gone,
  waiting, writing, World, Move, server_moves, types, enters, writes, draws, listen, check, raise,
  server_at, type_line, enter, write, draw, step, after, same_text, quit, quit_bare,
}

module _ (semop : Semop) (nickname : ℕ → List ℕ) where
  -- A move is at most one message.
  abbrev pub Few : World → World → Type 0
  Few w t = t.messages ≤ w.messages + 1

  Few-after :
      (o : Option (ℕ → ℕ)) (w : World) (f : (ℕ → ℕ) → World)
      → ((sems' : ℕ → ℕ) → Few w (f sems'))
      → Few w (after o w f)
  Few-after none w f h = omega arith
  Few-after (some sems') w f h = h sems'

  Few-if : (b : Bool) (w t u : World) → Few w t → Few w u → Few w (if b then t else u)
  Few-if true w t u h k = h
  Few-if false w t u h k = k

  Few-server_at : (s : Server) (w : World) → Few w (server_at semop nickname s w)
  unfolding server_at listen check raise
  Few-server_at listening w =
      Few-after (semop (down 1 1 ∷ wait_zero 1 ∷ up 1 1 ∷ []) w.sems) w
        (λ v. record w { sems = v; server = checking; messages = w.messages + 1 })
        (λ sems'. omega arith)
  Few-server_at checking w =
      Few-if (same_text w.buffer quit || same_text w.buffer quit_bare) w
        (record w { server = stopped }) (record w { server = raising 2 }) (omega arith)
        (omega arith)
  Few-server_at stopped w = omega arith
  Few-server_at (raising i) w =
      let next = λ (v : ℕ → ℕ). record w { sems = v; server = raising (i + 1) } in
      let release = λ (v : ℕ → ℕ). record w { sems = v; server = listening } in
      Few-if (ltb i 12) w (after (semop (up i 1 ∷ []) w.sems) w next)
        (after (semop (down 1 1 ∷ []) w.sems) w release)
        (Few-after (semop (up i 1 ∷ []) w.sems) w next (λ sems'. omega arith))
        (Few-after (semop (down 1 1 ∷ []) w.sems) w release (λ sems'. omega arith))

  Few-type_line :
      (r : Reader) (c : ℕ) (msg : List ℕ) (w : World) → Few w (type_line semop nickname r c msg w)
  unfolding type_line
  Few-type_line typing c msg w = omega arith
  Few-type_line gone c msg w = omega arith
  Few-type_line (waiting m) c msg w = omega arith
  Few-type_line (writing m) c msg w = omega arith

  Few-enter : (r : Reader) (c : ℕ) (w : World) → Few w (enter semop nickname r c w)
  unfolding enter
  Few-enter typing c w = omega arith
  Few-enter gone c w = omega arith
  Few-enter (waiting m) c w =
      Few-after (semop (wait_zero 1 ∷ up 1 1 ∷ []) w.sems) w
        (λ v. record w { sems = v; reader = put w.reader c (writing m); entered = w.entered + 1 })
        (λ sems'. omega arith)
  Few-enter (writing m) c w = omega arith

  Few-write : (r : Reader) (c : ℕ) (w : World) → Few w (write semop nickname r c w)
  unfolding write
  Few-write typing c w = omega arith
  Few-write gone c w = omega arith
  Few-write (waiting m) c w = omega arith
  Few-write (writing m) c w = omega arith

  pub Few-step : (m : Move) (w : World) → Few w (step semop nickname m w)
  unfolding step draw
  Few-step server_moves w = Few-server_at w.server w
  Few-step (types c msg) w = Few-type_line (w.reader c) c msg w
  Few-step (enters c) w = Few-enter (w.reader c) c w
  Few-step (writes c) w = Few-write (w.reader c) c w
  Few-step (draws c) w =
      let show = record w { screen = w.screen ++ (c, w.buffer) ∷ []; busy = put w.busy c false } in
      let wake = λ (v : ℕ → ℕ). record w { sems = v; busy = put w.busy c true } in
      Few-if (w.busy c) w show (after (semop (down c 1 ∷ []) w.sems) w wake) (omega arith)
        (Few-after (semop (down c 1 ∷ []) w.sems) w wake (λ sems'. omega arith))
