-- ===== src/QueueChat/Queues.antt =====
-- What les16_IPC_objects uses of `msgsnd` and `msgrcv`, as their manuals state it.
use summer_school.Base.{◌≡◌, Option, some, List, [], ◌∷◌, ◌++◌}

-- `none` is a call that sleeps, at a full or an empty queue.
pub record Queue (A Q : Type 0) : Type 0 where
  pub contents : Q → List A
  pub msgsnd : A → Q → Option Q
  pub msgrcv : Q → Option (A × Q)
  pub sends : (a : A) (q q' : Q) → msgsnd a q ≡ some q' → contents q' ≡ contents q ++ a ∷ []
  pub receives : (a : A) (q q' : Q) → msgrcv q ≡ some (a, q') → contents q ≡ a ∷ contents q'
