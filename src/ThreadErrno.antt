-- ===== src/ThreadErrno.antt =====
-- The thread's own message buffer of les14_threads/src/my_errno.c: `errno` keeps one buffer of 250
-- bytes for each thread, behind a key that is made once. Calls of the threads come in any order.
pub mod Local
mod Examples
use summer_school.Base.{
  ℕ, zero, suc, ◌+◌, ◌<◌, Bool, true, false, Option, none, some, List, [], ◌∷◌, ◌==◌, if◌then◌else◌,
  put, overwrite,
}

-- The memory, by buffers, with the address that `malloc` gives next, the values of the key by thread,
-- and how often the key was made.
pub record Process : Type 0 where
  pub buffers : ℕ → List ℕ
  pub next : ℕ
  pub specific : ℕ → Option ℕ
  pub once : Bool
  pub keys : ℕ

-- The buffers hold whatever `malloc` leaves in them.
abbrev pub fresh : (ℕ → List ℕ) → Process
fresh junk = record { buffers = junk; next = 0; specific = λ t. none; once = false; keys = 0 }

-- `pthread_once(&once, init_key)`
pub init_once : Process → Process
init_once s = record s { once = true; keys = if s.once then s.keys else s.keys + 1 }

-- The last character of the text.
pub digit : ℕ → ℕ
digit num =
    if num == 0
    then b'0'
    else (if num == 1 then b'1' else (if num == 2 then b'2' else (if num == 3 then b'3' else b'D')))

-- "case 0", with its zero byte.
pub text : ℕ → List ℕ
text num = b'c' ∷ b'a' ∷ b's' ∷ b'e' ∷ 32 ∷ digit num ∷ 0 ∷ []

-- `pthread_getspecific`, and a new buffer for a thread that has none.
pub own_buffer : Option ℕ → ℕ → Process → ℕ × Process
own_buffer (some a) t s = (a, s)
own_buffer none t s =
    (s.next, record s { next = s.next + 1; specific = put s.specific t (some s.next) })

-- `errno(no)` in the thread `t`: the address that it returns, and what it leaves.
pub errno : (t num : ℕ) → Process → ℕ × Process
errno t num s =
    let s₁ = init_once s in
    let (a, s₂) = own_buffer (s₁.specific t) t s₁ in
    (a, record s₂ { buffers = put s₂.buffers a (overwrite (s₂.buffers a) (text num)) })

-- Calls, by thread and number, in the order in which they happen.
pub calls : List (ℕ × ℕ) → Process → Process
calls [] s = s
calls ((t, num) ∷ rest) s = calls rest ((errno t num s).1)

-- What `thread` does, undisturbed.
pub thread : ℕ → Process → Process
thread t s = calls ((t, 0) ∷ (t, 1) ∷ (t, 2) ∷ (t, 3) ∷ (t, 4) ∷ []) s
