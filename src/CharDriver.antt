-- ===== src/CharDriver.antt =====
-- The character device of les29_linux_modules/driver.c, whose read and write stand in proc_module.c
-- and sys_module.c too: a read toggles a static flag, a write copies one line into `toWrite[256]`.
-- `none` is an access outside a buffer.
pub mod Lines
pub mod Reads
pub mod Modules
mod Examples
use summer_school.Base.{
  ℕ, zero, suc, ◌+◌, Bool, true, false, Option, none, some, List, [], ◌∷◌, get_elem?, store, ◌==◌,
  if◌then◌else◌, ◌>>=◌,
}

-- "you are unworthy! >:)\n"
abbrev pub unworthy : List ℕ
unworthy =
    b'y' ∷ b'o' ∷ b'u' ∷ 32 ∷ b'a' ∷ b'r' ∷ b'e' ∷ 32 ∷ b'u' ∷ b'n' ∷ b'w' ∷ b'o' ∷ b'r' ∷ b't'
    ∷ b'h' ∷ b'y' ∷ b'!' ∷ 32 ∷ b'>' ∷ b':' ∷ b')' ∷ 10 ∷ []

-- What one read leaves: the flag `transaction_complete`, the text put into the user's buffer, if
-- any, and the number of bytes that it reports.
pub record Read : Type 0 where
  pub transaction_complete : ℕ
  pub text : Option (List ℕ)
  pub count : ℕ

pub driver_read : ℕ → Read
driver_read transaction_complete =
    if transaction_complete == 0
    then record { transaction_complete = 1; text = some unworthy; count = 22 }
    else record { transaction_complete = 0; text = none; count = 0 }

-- A user that reads until a read reports 0 bytes, as `cat` does, at most `fuel` times: the flag and
-- the texts that it got. `none` means that the reads did not end.
pub read_all : ℕ → ℕ → Option (ℕ × List (List ℕ))
read_all zero flag = none
read_all (suc fuel) flag =
    let r = driver_read flag in
    let rest = read_all fuel r.transaction_complete in
    if r.count == 0
    then some (r.transaction_complete, [])
    else rest >>= λ (f, texts). elim r.text [
      | none ↦ some (f, texts)
      | some t ↦ some (f, t ∷ texts)
    ]

-- `while(buffer[i] != '\n')`: the copy, with the index at which it stops. A read or a write outside
-- its buffer ends it, so `length buffer` rounds are enough.
pub copy_line : ℕ → List ℕ → ℕ → List ℕ → Option (List ℕ × ℕ)
copy_line zero buffer i to_write = none
copy_line (suc fuel) buffer i to_write = do
  c ← get_elem? buffer i
  let rest = store to_write i c >>= λ w. copy_line fuel buffer (i + 1) w
  if c == 10 then some (to_write, i) else rest

-- `toWrite[i++] = '\n'; toWrite[i] = 0;`
pub terminate : List ℕ → ℕ → Option (List ℕ)
terminate w i = store w i 10 >>= λ w₁. store w₁ (i + 1) 0

-- `driver_write`: the text that is printed, and the `len` that is reported.
pub driver_write : ℕ → List ℕ → List ℕ → ℕ → Option (List ℕ × ℕ)
driver_write fuel to_write buffer len = do
  (w, i) ← copy_line fuel buffer 0 to_write
  text ← terminate w i
  some (text, len)
