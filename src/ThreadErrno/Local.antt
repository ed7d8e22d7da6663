-- ===== src/ThreadErrno/Local.antt =====
-- The buffers of the threads are their own (les14_threads/src/my_errno.c).
use summer_school.Base.{
  ℕ, ◌<◌, ◌≡◌, ◌≢◌, refl, ap, ◌∙◌, Option, none, some, List, [], ◌∷◌, put, overwrite, arith, All,
}
use summer_school.ThreadErrno.{Process, fresh, init_once, text, own_buffer, errno, calls}

-- Every thread's buffer was allocated, no two threads have the same one, and the key was made once
-- at most.
pub record IsOwned (s : Process) : Type 0 where
  pub allocated : (t a : ℕ) → s.specific t ≡ some a → a < s.next
  pub own : (t u a : ℕ) → s.specific t ≡ some a → s.specific u ≡ some a → t ≡ u

-- What one call does, for the thread that makes it.
pub record IsCalled (t num : ℕ) (s : Process) (a : ℕ) (s' : Process) : Type 0 where
  pub owned : IsOwned s'
  pub mine : s'.specific t ≡ some a
  pub others : (u : ℕ) → t ≢ u → s'.specific u ≡ s.specific u
  pub written : s'.buffers a ≡ overwrite (s.buffers a) (text num)
  pub kept : (b : ℕ) → a ≢ b → s'.buffers b ≡ s.buffers b

own_buffer-IsCalled :
    (o : Option ℕ) (t num : ℕ) (s : Process)
    → s.specific t ≡ o
    → IsOwned s
    → let (a, s') = own_buffer o t s in
      IsCalled t num s a
        (record s' { buffers = put s'.buffers a (overwrite (s'.buffers a) (text num)) })
unfolding own_buffer
own_buffer-IsCalled (some a) t num s e v = record {
  owned = record { allocated = v.allocated; own = v.own };
  mine = e;
  others = λ u h. refl;
  written = ground arith;
  kept = λ b h. ground arith;
}
own_buffer-IsCalled none t num s e v = record {
  owned = record {
    allocated = λ u a h. ground (arith, v.allocated u a);
    own = λ u w a h k. ground (arith, v.own u w a, v.allocated u a, v.allocated w a);
  };
  mine = ground arith;
  others = λ u h. ground arith;
  written = ground arith;
  kept = λ b h. ground arith;
}

pub errno-IsCalled :
    (t num : ℕ) (s : Process) → IsOwned s → IsCalled t num s ((errno t num s).0) ((errno t num s).1)
unfolding errno init_once
errno-IsCalled t num s v =
    let r =
      own_buffer-IsCalled (s.specific t) t num (init_once s) refl
        (record { allocated = v.allocated; own = v.own }) in
    record { owned = r.owned; mine = r.mine; others = r.others; written = r.written; kept = r.kept }

-- Calls of other threads leave a thread's buffer as it is.
calls_others :
    (rest : List (ℕ × ℕ)) (t a : ℕ) (s : Process)
    → IsOwned s
    → s.specific t ≡ some a
    → All (λ c. c.0 ≢ t) rest
    → ((calls rest s).buffers a ≡ s.buffers a)
      × ((calls rest s).specific t ≡ some a)
      × IsOwned (calls rest s)
unfolding calls
calls_others [] t a s v m h = (refl, m, v)
calls_others ((u, num) ∷ rest) t a s v m h =
    let r = errno-IsCalled u num s v in
    let m' : (errno u num s).1.specific t ≡ some a = r.others t h.0 ∙ m in
    let apart : (errno u num s).0 ≢ a =
      λ e. h.0 (r.owned.own u t a (r.mine ∙ ap (λ x. some x) e) m') in
    let (b, m₂, v₂) = calls_others rest t a ((errno u num s).1) r.owned m' h.1 in
    (b ∙ r.kept a apart, m₂, v₂)

-- What a thread gets from `errno` it keeps, whatever the others call, and however often: the buffer
-- at the address still begins with the text of its own number, and is still the thread's own.
pub errno_lem :
    (t num : ℕ) (rest : List (ℕ × ℕ)) (s : Process)
    → IsOwned s
    → All (λ c. c.0 ≢ t) rest
    → let (a, s') = errno t num s in
      ((calls rest s').buffers a ≡ overwrite (s.buffers a) (text num))
      × ((calls rest s').specific t ≡ some a)
      × IsOwned (calls rest s')
errno_lem t num rest s v h =
    let r = errno-IsCalled t num s v in
    let (b, m, v') = calls_others rest t ((errno t num s).0) ((errno t num s).1) r.owned r.mine h in
    (b ∙ r.written, m, v')

pub fresh-IsOwned : (junk : ℕ → List ℕ) → IsOwned (fresh junk)
fresh-IsOwned junk = record { allocated = λ t a h. absurd (cc); own = λ t u a h k. absurd (cc) }
