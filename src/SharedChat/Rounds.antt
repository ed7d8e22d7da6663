-- ===== src/SharedChat/Rounds.antt =====
-- The server comes back for the next message, les17_shared_memory/src/server.c.
use summer_school.Base.{
  ℕ, zero, suc, ◌+◌, ◌-◌, ◌≤◌, ◌<◌, ◌≡◌, ◌≢◌, refl, sym, ap, ◌∙◌, subst, true, false, List, [], ◌∷◌,
  ltb, put, arith, ℕ_discrete,
}
use summer_school.SharedChat.{
  Semop, listening, checking, raising, World, Move, server_moves, listen, check, raise, server_at,
  step, run, same_text, quit, quit_bare,
}
use summer_school.SharedChat.Semaphores.{IsSemop}

-- `n` moves of the server.
abbrev pub moves : ℕ → List Move
moves zero = []
moves (suc n) = server_moves ∷ moves n

-- The server listens again, semaphore 1 is free, and each client from a number on has been told.
pub record IsRound (j : ℕ) (w t : World) : Type 0 where
  pub back : t.server ≡ listening
  pub free : t.sems 1 ≡ 0
  pub raised : (i : ℕ) → j ≤ i → i < 12 → t.sems i ≡ w.sems i + 1
  pub kept : (i : ℕ) → i < j → i ≢ 1 → t.sems i ≡ w.sems i
  pub shut : t.entered ≡ w.entered

module _ (semop : Semop) (nickname : ℕ → List ℕ) (law : IsSemop semop) where
  raise_once :
      (j : ℕ) (w : World)
      → w.server ≡ raising j
      → j < 12
      → w.sems j < 32767
      → step semop nickname server_moves w
        ≡ record w { sems = put w.sems j (w.sems j + 1); server = raising (j + 1) }
  unfolding step server_at raise
  raise_once j w e h room =
      let on : ltb j 12 ≡ true = ground arith in
      ap (λ s. server_at semop nickname s w) e ∙ rw (on, law.raises j w.sems h room) refl

  release_once :
      (w : World)
      → w.server ≡ raising 12
      → w.sems 1 ≡ 1
      → step semop nickname server_moves w
        ≡ record w { sems = put w.sems 1 (w.sems 1 - 1); server = listening }
  unfolding step server_at raise
  release_once w e one =
      ap (λ s. server_at semop nickname s w) e
      ∙ rw (law.lowers 1 w.sems (omega arith) (omega arith)) refl

  raise-IsRound :
      (k j : ℕ) (w : World)
      → w.server ≡ raising j
      → j + k ≡ 12
      → 2 ≤ j
      → w.sems 1 ≡ 1
      → ((i : ℕ) → j ≤ i → i < 12 → w.sems i < 32767)
      → IsRound j w (run semop nickname (moves (suc k)) w)
  unfolding run
  raise-IsRound zero j w e h a one room =
      let last : w.server ≡ raising 12 = e ∙ ap (λ i. raising i) (omega arith) in
      rw (release_once w last one) record {
        back = refl;
        free = ground arith;
        raised = λ i k l. absurd (omega arith);
        kept = λ i l other. ground arith;
        shut = refl;
      }
  raise-IsRound (suc k) j w e h a one room =
      let inside : j < 12 = omega arith in
      let t : World = record w { sems = put w.sems j (w.sems j + 1); server = raising (j + 1) } in
      let r =
        raise-IsRound k (j + 1) t refl (omega arith) (omega arith) (ground arith)
          (λ i b c. ground (arith, room i (omega arith) c)) in
      subst (λ u. IsRound j w (run semop nickname (moves (suc k)) u))
        (sym (raise_once j w e inside (room j (omega arith) inside)))
        record {
          back = r.back;
          free = r.free;
          raised = λ i b c. elim (ℕ_discrete j i) [
            | yes here ↦
                let same : w.sems i ≡ w.sems j = ap w.sems (sym here) in
                ground (arith, r.kept i (omega arith) (omega arith), same)
            | no there ↦ ground (arith, r.raised i (omega arith) c)
          ];
          kept = λ i l other. ground (arith, r.kept i (omega arith) other);
          shut = r.shut;
        }

  -- When a message is in, the server listens and the text is not the one that ends it, thirteen moves
  -- of the server take the message up: it listens again, semaphore 1 is free for the next message, and
  -- the semaphores 2 to 11 are raised by one each. No semaphore is at its greatest value before.
  pub round_lem :
      (w : World)
      → w.server ≡ listening
      → w.sems 1 ≡ 1
      → same_text w.buffer quit ≡ false
      → same_text w.buffer quit_bare ≡ false
      → ((i : ℕ) → i < 12 → w.sems i < 32767)
      → IsRound 2 w (run semop nickname (moves 13) w)
  unfolding run step server_at listen check
  round_lem w e one on on_bare room =
      let (sems', call, same) = law.finds 1 w.sems (omega arith) one in
      let t : World = record w { sems = sems'; server = raising 2; messages = w.messages + 1 } in
      let r =
        raise-IsRound 10 2 t refl refl (omega arith) (same 1 ∙ one)
          (λ i b c. omega (arith, same i, room i c)) in
      let heard : step semop nickname server_moves w
          ≡ record w { sems = sems'; server = checking; messages = w.messages + 1 } =
        ap (λ s. server_at semop nickname s w) e ∙ rw call refl in
      let checked : step semop nickname server_moves
            (record w { sems = sems'; server = checking; messages = w.messages + 1 })
          ≡ t =
        rw (on, on_bare) refl in
      subst (λ u. IsRound 2 w (run semop nickname (moves 12) u)) (sym heard)
        (subst (λ u. IsRound 2 w (run semop nickname (moves 11) u)) (sym checked)
          record {
            back = r.back;
            free = r.free;
            raised = λ i b c. omega (arith, r.raised i b c, same i);
            kept = λ i l other. omega (arith, r.kept i l other, same i);
            shut = r.shut;
          })
