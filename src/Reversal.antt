-- ===== src/Reversal.antt =====
-- The program that reverses a file, les10_my_nano/src/reverse.c. The descriptor of the file that is read
-- is an argument, and the file that is written is the list of its bytes. An `int` of 32 bits is kept as
-- its distance from the least one, which is `2 ^ 31` for 0; an addition behind the greatest is `none`.
pub mod Descriptor
mod Pieces
pub mod Backwards
mod Examples
use summer_school.Base.{
  ltb, ◌^◌, ◌-◌, ℕ, zero, suc, ◌+◌, Option, none, some, List, [], ◌++◌, ◌==◌, if◌then◌else◌, ◌>>=◌,
  length,
}
use summer_school.Reversal.Descriptor.{File}

module _ {F : Type 0} (file : File F) where
  -- The `while` loop: `size` behind it, and the descriptor at the end of the file. Each round but the
  -- last reads a byte at least, so that the length of the file and one round are fuel enough.
  pub count_bytes : (fuel : ℕ) → (size : ℕ) → F → Option (ℕ × F)
  count_bytes zero size f = none
  count_bytes (suc fuel) size f =
      let (buffer, after) = file.read 3 f in
      let total = size + length buffer in
      let rest = count_bytes fuel total after in
      let added = if ltb total (2 ^ 32) then rest else none in
      if length buffer == 0 then some (size, after) else added

  -- The `for` loop from `i` on, with the rounds that are left: what is written.
  pub backwards : (left i : ℕ) → F → List ℕ
  backwards zero i f = []
  backwards (suc left) i f =
      let (buffer, after) = file.read 1 (file.lseek_end i f) in
      let rest = backwards left (i + 1) after in if length buffer == 0 then [] else buffer ++ rest

  -- `main` with both files opened; `junk` is what `size` holds before it is added to. When `size` is
  -- negative behind the first loop, the second has no round.
  pub reversed : (fuel junk : ℕ) → F → Option (List ℕ)
  unfolding count_bytes backwards
  reversed fuel junk f = count_bytes fuel junk f >>= λ r. some (backwards (r.0 - 2 ^ 31) 1 r.1)
