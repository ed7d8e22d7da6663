-- ===== src/SharedChat/ClientMoves.antt =====
-- The moves of the clients, les17_shared_memory/src/client.c.
use summer_school.Base.{
  ℕ, ◌≤◌, ◌≡◌, sym, ap, ◌∙◌, List, arith, Bool-cases, inl, inr, ℕ_discrete, dec_lt,
}
use summer_school.SharedChat.{
  Semop, Reader, typing, gone, waiting, writing, World, type_line, enter, write, draw,
}
use summer_school.SharedChat.Semaphores.{IsSemop}
use summer_school.SharedChat.Counts.{pending, IsChat, shown-append}

module _ (semop : Semop) (nickname : ℕ → List ℕ) (law : IsSemop semop) where
  pub type_line-IsChat :
      (r : Reader) (c : ℕ) (msg : List ℕ) (w : World)
      → IsChat w
      → IsChat (type_line semop nickname r c msg w)
  unfolding type_line
  type_line-IsChat typing c msg w v = record {
    gate = v.gate;
    closed = v.closed;
    place = v.place;
    accepted = v.accepted;
    slots = v.slots;
  }
  type_line-IsChat gone c msg w v = v
  type_line-IsChat (waiting m) c msg w v = v
  type_line-IsChat (writing m) c msg w v = v

  pub enter-IsChat :
      (r : Reader) (c : ℕ) (w : World) → IsChat w → IsChat (enter semop nickname r c w)
  unfolding enter
  enter-IsChat typing c w v = v
  enter-IsChat gone c w v = v
  enter-IsChat (writing m) c w v = v
  enter-IsChat (waiting m) c w v = elim (ℕ_discrete (w.sems 1) 0) [
    | no closed ↦ rw (law.queues 1 w.sems (omega arith) closed) v
    | yes free ↦ rw (law.takes 1 w.sems (omega arith) free) record {
      gate = omega arith;
      closed = omega (arith, v.closed);
      place = v.place;
      accepted = omega (arith, v.accepted);
      slots = λ i a b. ground (arith, v.slots i a b);
    }
  ]

  pub write-IsChat :
      (r : Reader) (c : ℕ) (w : World) → IsChat w → IsChat (write semop nickname r c w)
  unfolding write
  write-IsChat typing c w v = v
  write-IsChat gone c w v = v
  write-IsChat (waiting m) c w v = v
  write-IsChat (writing m) c w v = record {
    gate = v.gate;
    closed = v.closed;
    place = v.place;
    accepted = v.accepted;
    slots = v.slots;
  }

  pub draw-IsChat : (c : ℕ) (w : World) → 2 ≤ c → IsChat w → IsChat (draw semop nickname c w)
  unfolding draw
  draw-IsChat c w a v = elim (Bool-cases (w.busy c)) [
    | inl busy ↦ rw busy record {
      gate = v.gate;
      closed = v.closed;
      place = v.place;
      accepted = v.accepted;
      slots = λ i k l. elim (ℕ_discrete c i) [
        | yes here ↦
            let was : pending (w.busy i) ≡ 1 =
              ap (λ j. pending (w.busy j)) (sym here) ∙ ap pending busy in
            ground (arith, v.slots i k l, was, shown-append i c w.buffer w.screen)
        | no there ↦ ground (arith, v.slots i k l, shown-append i c w.buffer w.screen)
      ];
    }
    | inr idle ↦ elim (dec_lt c 12) [
      | no outside ↦
          rw (idle, law.outside c w.sems (omega arith))
            record {
              gate = v.gate;
              closed = v.closed;
              place = v.place;
              accepted = v.accepted;
              slots = λ i k l. ground (arith, v.slots i k l);
            }
      | yes inside ↦ elim (ℕ_discrete (w.sems c) 0) [
        | yes none_due ↦ rw (idle, law.sleeps c w.sems inside none_due) v
        | no some_due ↦
            rw (idle, law.lowers c w.sems inside (omega arith))
              record {
                gate = ground (arith, v.gate);
                closed = ground (arith, v.closed);
                place = v.place;
                accepted = ground (arith, v.accepted);
                slots = λ i k l. elim (ℕ_discrete c i) [
                  | yes here ↦
                      let was : pending (w.busy i) ≡ 0 =
                        ap (λ j. pending (w.busy j)) (sym here) ∙ ap pending idle in
                      let due_here : w.sems i ≡ w.sems c = ap w.sems (sym here) in
                      ground (arith, v.slots i k l, was, due_here)
                  | no there ↦ ground (arith, v.slots i k l)
                ];
              }
      ]
    ]
  ]
