-- ===== src/Checksum.antt =====
-- The Internet checksum of the raw-socket programs: `checksum` (the same function in
-- les26_syn_storm/src/main.c, les27_channel_level/src/main.c, les28_ping_tracert/src/ping.c and
-- tracert.c) and `gen_crc16` of les31_kernel_ping/ping.c. Memory is a list of bytes, an address is
-- an index, and a read outside the list is `none`.
pub mod Sum
pub mod Verify
pub mod Agree
mod Examples
use summer_school.Base.{
  ℕ, zero, suc, ◌+◌, ◌-◌, ◌*◌, ◌<◌, Option, none, some, List, get_elem?, ltb, ◌==◌, if◌then◌else◌,
  ◌>>=◌, u16, u32, not16,
}

-- An `unsigned short` read on a little-endian host.
pub word_at : List ℕ → ℕ → Option ℕ
word_at mem a = do lo ← get_elem? mem a; hi ← get_elem? mem (a + 1); some (lo + 256 * hi)

-- The fold of a carry, `if (result > 0xFFFF) { result -= 0x10000; result += 0x1; }`.
fold_carry : ℕ → ℕ
fold_carry r = if ltb 0xFFFF r then r - 0x10000 + 1 else r

-- The body of the loop of `checksum`. The sum is made in `int`, below 2 ^ 17.
pub add_word : ℕ → ℕ → ℕ
unfolding fold_carry
add_word result w = fold_carry (u16 result + w)

-- `while(&tickPoint[i] != endPoint)` from the address `tick`.
pub sum_words : ℕ → List ℕ → ℕ → ℕ → ℕ → Option ℕ
sum_words zero mem tick end result = none
sum_words (suc fuel) mem tick end result =
    let rest = word_at mem tick >>= λ w. sum_words fuel mem (tick + 2) end (add_word result w) in
    if tick == end then some result else rest

-- The loop reads a new word in each round, so it has left the memory after `length mem` rounds.
unfoldable pub checksum : ℕ → List ℕ → ℕ → ℕ → Option ℕ
unfolding sum_words word_at add_word
checksum fuel mem start end = sum_words fuel mem start end 0 >>= λ result. some (not16 result)

-- The body of the loop of `gen_crc16`, in `u32`.
add_crc : ℕ → ℕ → ℕ
unfolding fold_carry
add_crc crc w = fold_carry (u32 (crc + w))

-- `while (i < size)` with `left` rounds to go, at the address of `data[i]`.
pub crc_words : ℕ → List ℕ → ℕ → ℕ → Option ℕ
crc_words zero mem tick crc = some crc
crc_words (suc left) mem tick crc =
    word_at mem tick >>= λ w. crc_words left mem (tick + 2) (add_crc crc w)

-- `size` counts words, in a `u16`.
unfoldable pub gen_crc16 : List ℕ → ℕ → ℕ → Option ℕ
unfolding crc_words word_at add_crc
gen_crc16 mem data_at size = crc_words (u16 size) mem data_at 0 >>= λ crc. some (not16 crc)
