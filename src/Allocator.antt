-- ===== src/Allocator.antt =====
-- The allocator of les12_malloc/src/main.c: the table `chunk[65535]`, `good_malloc`, `good_free` and
-- the hook of `malloc`. `sbrk` and `__libc_malloc` are parameters. A `size` of the table is an `int`
-- held as its 32-bit pattern; `none` is an access outside the table, which C leaves undefined.
pub mod Table
pub mod Malloc
pub mod Free
pub mod Overlap
pub mod Hook
mod Examples
use summer_school.Base.{
  ℕ, zero, suc, ◌+◌, ◌-◌, ◌*◌, ◌^◌, ◌%◌, Bool, true, false, ◌&&◌, Option, none, some, List, [], ◌∷◌,
  get_elem?, replicate, store, length, ltb, leb, ◌==◌, if◌then◌else◌, ◌>>=◌, u32,
}

-- `struct malloc_chunk`; an address is a number, and 0 the null pointer.
pub record Chunk : Type 0 where
  pub ptr : ℕ
  pub size : ℕ
  pub is_free : Bool

abbrev pub max_chunks : ℕ
max_chunks = 65535

-- The globals. `chunk` has `max_chunks` entries, all zero at the start.
pub record Heap : Type 0 where
  pub chunk : List Chunk
  pub chunk_index : ℕ
  pub total_allocated : ℕ

-- A heap with `n` entries, all zero; `IS_FREE` is 0.
pub blank : ℕ → Heap
blank n = record {
  chunk = replicate n (record { ptr = 0; size = 0; is_free = true });
  chunk_index = 0;
  total_allocated = 0;
}

-- The globals at the start of the program.
pub initial : Heap
initial = blank max_chunks

-- An `int` converted to `size_t`: the sign is extended.
abbrev pub size_t_of_int : ℕ → ℕ
size_t_of_int n = if ltb n (2 ^ 31) then n else n + (2 ^ 64 - 2 ^ 32)

-- The loop of `good_malloc` over the entries from `i`, with `left` entries to go: the first one
-- that passes the test, `chunk[i].isFree == IS_FREE && chunk[i].size <= size`.
pub first_fit : ℕ → List Chunk → ℕ → ℕ → Option (Option ℕ)
first_fit zero chunk i size = some none
first_fit (suc left) chunk i size = do
  c ← get_elem? chunk i
  let rest = first_fit left chunk (i + 1) size
  if c.is_free && leb (size_t_of_int c.size) size then some (some i) else rest

-- `good_malloc` once the loop is over. `sbrk` is the address that `sbrk(size)` returns.
pub take_chunk : Heap → (size sbrk : ℕ) → Option ℕ → Option (ℕ × Heap)
take_chunk h size sbrk (some i) = do
  c ← get_elem? h.chunk i
  chunk' ← store h.chunk i (record c { is_free = false; size = u32 size })
  some (c.ptr, record h { chunk = chunk' })
take_chunk h size sbrk none = do
  chunk' ← store h.chunk h.chunk_index (record { ptr = sbrk; size = u32 size; is_free = false })
  some (sbrk, record h { chunk = chunk'; chunk_index = h.chunk_index + 1 })

pub good_malloc : Heap → (size sbrk : ℕ) → Option (ℕ × Heap)
good_malloc h size sbrk = first_fit h.chunk_index h.chunk 0 size >>= take_chunk h size sbrk

-- The loop of `good_free` at `i`, with `left` rounds to go: the index at which it stops. The test
-- reads `chunk[chunk_index]` in each round, and not `chunk[i]`.
pub find_ptr : ℕ → List Chunk → ℕ → ℕ → ℕ → Option ℕ
find_ptr zero chunk chunk_index ptr i = some i
find_ptr (suc left) chunk chunk_index ptr i = do
  c ← get_elem? chunk chunk_index
  let rest = find_ptr left chunk chunk_index ptr (i + 1)
  if c.ptr == ptr then some i else rest

-- The end of `good_free`, with the table in which the entry `i`, now `c`, is marked free. The `if`
-- gives memory back to the system: the number is what is subtracted from the break.
pub give_back : Heap → List Chunk → ℕ → Chunk → Option ℕ × Heap
give_back h chunk' i c =
    if i == h.chunk_index
    then (
      some c.size,
      record {
        chunk = chunk';
        chunk_index = h.chunk_index - 1;
        total_allocated = h.total_allocated - c.size;
      },
    )
    else (none, record h { chunk = chunk' })

-- `good_free` once the loop has stopped at `found`: after `i--`. At -1 the access is outside the
-- table.
pub mark_free : Heap → ℕ → Option (Option ℕ × Heap)
mark_free h zero = none
mark_free h (suc i) = do
  c ← get_elem? h.chunk i
  chunk' ← store h.chunk i (record c { is_free = true })
  some (give_back h chunk' i c)

pub good_free : Heap → ℕ → Option (Option ℕ × Heap)
good_free h ptr = find_ptr h.chunk_index h.chunk h.chunk_index ptr 0 >>= mark_free h

-- `malloc` and `my_not_deprecated_malloc`: the hook is off while the inner call runs, so that call
-- goes to `__libc_malloc`. The state is the flag `hook_active` and the number of logged calls.
pub record HookState : Type 0 where
  pub hook_active : Bool
  pub logged : ℕ

pub malloc : ℕ → (libc_malloc : ℕ → ℕ) → HookState → ℕ → Option (ℕ × HookState)
malloc zero libc_malloc k size = none
malloc (suc fuel) libc_malloc k size =
    let inner = malloc fuel libc_malloc (record k { hook_active = false }) size in
    if k.hook_active
    then (inner >>= λ (p, k'). some (p, record k' { hook_active = true; logged = k'.logged + 1 }))
    else some (libc_malloc size, k)
