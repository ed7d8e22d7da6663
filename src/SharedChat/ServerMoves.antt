-- ===== src/SharedChat/ServerMoves.antt =====
-- The moves of the server, les17_shared_memory/src/server.c.
use summer_school.Base.{
  ℕ, ◌≤◌, ◌<◌, ◌≡◌, ap, subst, true, false, List, ltb, ◌||◌, if◌then◌else◌, arith, Bool-cases, inl,
  inr, ℕ_discrete, dec_lt,
}
use summer_school.SharedChat.{
  Semop, Server, listening, checking, stopped, raising, World, listen, check, raise, server_at,
  same_text, quit, quit_bare,
}
use summer_school.SharedChat.Semaphores.{IsSemop}
use summer_school.SharedChat.Counts.{held, told, IsPlace, IsChat}

module _ (semop : Semop) (nickname : ℕ → List ℕ) (law : IsSemop semop) where
  -- Each move keeps these facts, as long as no semaphore is full.
  listen-IsChat : (w : World) → IsChat w → w.server ≡ listening → IsChat (listen semop nickname w)
  unfolding listen
  listen-IsChat w v e = elim (ℕ_discrete (w.sems 1) 1) [
    | no other ↦ rw (law.misses 1 w.sems (omega arith) other) v
    | yes one ↦
        let (sems', call, same) = law.finds 1 w.sems (omega arith) one in
        let free : held w.server ≡ 0 = ap held e in
        let untold : (i : ℕ) → told w.server i ≡ 0 = λ i. ap (λ s. told s i) e in
        rw call record {
          gate = omega (arith, same 1);
          closed = omega (arith, same 1);
          place = tt;
          accepted = omega (arith, same 1, v.accepted, free);
          slots = λ i a b. omega (arith, same i, v.slots i a b, free, untold i);
        }
  ]

  check-IsChat : (w : World) → IsChat w → w.server ≡ checking → IsChat (check semop nickname w)
  unfolding check
  check-IsChat w v e =
      let busy : held w.server ≡ 1 = ap held e in
      let untold : (i : ℕ) → told w.server i ≡ 0 = λ i. ap (λ s. told s i) e in
      elim (Bool-cases (same_text w.buffer quit || same_text w.buffer quit_bare)) [
        | inl over ↦ rw over record {
          gate = v.gate;
          closed = omega (arith, v.closed, busy);
          place = tt;
          accepted = omega (arith, v.accepted, busy);
          slots = λ i a b. omega (arith, v.slots i a b, busy, untold i);
        }
        | inr on ↦ rw on record {
          gate = v.gate;
          closed = omega (arith, v.closed, busy);
          place = omega arith;
          accepted = omega (arith, v.accepted, busy);
          slots = λ i a b. ground (arith, v.slots i a b, busy, untold i);
        }
      ]

  raise-IsChat :
      (w : World) (j : ℕ)
      → IsChat w
      → w.server ≡ raising j
      → w.messages < 32767
      → IsChat (raise semop nickname j w)
  unfolding raise
  raise-IsChat w j v e few =
      let busy : held w.server ≡ 1 = ap held e in
      let telling : (i : ℕ) → told w.server i ≡ (if ltb i j then 1 else 0) =
        λ i. ap (λ s. told s i) e in
      let place : 2 ≤ j = subst IsPlace e v.place in
      elim (dec_lt j 12) [
        | yes inside ↦
            let on : ltb j 12 ≡ true = ground arith in
            let slot = v.slots j place inside in
            let room : w.sems j < 32767 = ground (arith, slot, telling j, busy) in
            rw (on, law.raises j w.sems inside room)
              record {
                gate = ground (arith, v.gate);
                closed = ground (arith, v.closed, busy);
                place = omega arith;
                accepted = ground (arith, v.accepted, busy);
                slots = λ i a b. ground (arith, v.slots i a b, busy, telling i);
              }
        | no end ↦
            let off : ltb j 12 ≡ false = ground arith in
            rw (off, law.lowers 1 w.sems (omega arith) (omega (arith, v.closed, busy)))
              record {
                gate = omega (arith, v.gate);
                closed = omega arith;
                place = tt;
                accepted = omega (arith, v.accepted, v.closed, busy);
                slots = λ i a b. ground (arith, v.slots i a b, busy, telling i);
              }
      ]

  pub server_at-IsChat :
      (s : Server) (w : World)
      → IsChat w
      → w.server ≡ s
      → w.messages < 32767
      → IsChat (server_at semop nickname s w)
  unfolding server_at
  server_at-IsChat listening w v e few = listen-IsChat w v e
  server_at-IsChat checking w v e few = check-IsChat w v e
  server_at-IsChat stopped w v e few = v
  server_at-IsChat (raising j) w v e few = raise-IsChat w j v e few
