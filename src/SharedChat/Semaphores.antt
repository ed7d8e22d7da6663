-- ===== src/SharedChat/Semaphores.antt =====
-- What les17_shared_memory uses of `semop`, as its manual states it.
use summer_school.Base.{ℕ, ◌+◌, ◌-◌, ◌≤◌, ◌<◌, ◌≡◌, ◌≢◌, none, some, [], ◌∷◌, put}
use summer_school.SharedChat.{up, down, wait_zero, Semop}

-- The operations of one call are done together or not at all; a call that cannot do them sleeps. A
-- value has a bound, and a call that would pass it, or that names a semaphore outside of the twelve,
-- fails at once and changes nothing.
pub record IsSemop (semop : Semop) : Type 0 where
  pub raises :
      (n : ℕ) (v : ℕ → ℕ) → n < 12 → v n < 32767 → semop (up n 1 ∷ []) v ≡ some (put v n (v n + 1))
  pub lowers :
      (n : ℕ) (v : ℕ → ℕ) → n < 12 → 0 < v n → semop (down n 1 ∷ []) v ≡ some (put v n (v n - 1))
  pub sleeps : (n : ℕ) (v : ℕ → ℕ) → n < 12 → v n ≡ 0 → semop (down n 1 ∷ []) v ≡ none
  pub outside : (n : ℕ) (v : ℕ → ℕ) → 12 ≤ n → semop (down n 1 ∷ []) v ≡ some v
  pub takes :
      (n : ℕ) (v : ℕ → ℕ)
      → n < 12
      → v n ≡ 0
      → semop (wait_zero n ∷ up n 1 ∷ []) v ≡ some (put v n (v n + 1))
  pub queues : (n : ℕ) (v : ℕ → ℕ) → n < 12 → v n ≢ 0 → semop (wait_zero n ∷ up n 1 ∷ []) v ≡ none
  pub finds :
      (n : ℕ) (v : ℕ → ℕ)
      → n < 12
      → v n ≡ 1
      → (v' : ℕ → ℕ) × (semop (down n 1 ∷ wait_zero n ∷ up n 1 ∷ []) v ≡ some v')
        × ((j : ℕ) → v' j ≡ v j)
  pub misses :
      (n : ℕ) (v : ℕ → ℕ) → n < 12 → v n ≢ 1 → semop (down n 1 ∷ wait_zero n ∷ up n 1 ∷ []) v ≡ none
