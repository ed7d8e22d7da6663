-- ===== src/Packet.antt =====
-- Packets that the raw-socket programs write into a structure, through pointers of three widths, on a
-- little-endian host: les25_raw_sockets/src/raw_client.c, les26_syn_storm/src/main.c,
-- les27_channel_level/src/main.c, les28_ping_tracert/src/ping.c and tracert.c. `none` is a write outside
-- the structure.
pub mod Writes
pub mod Header
pub mod Ethernet
pub mod Syn
pub mod Strings
pub mod Echo
pub mod Raw
mod Examples
use summer_school.Base.{
  ℕ, ◌+◌, ◌*◌, ◌/◌, ◌%◌, ◌^◌, Option, none, some, List, [], ◌∷◌, store, ◌>>=◌, u8, zero, suc,
  get_elem?, ◌==◌, if◌then◌else◌,
}
use summer_school.Checksum.{checksum}

-- `htons` and `htonl` of the C library, on such a host.
unfoldable pub htons : ℕ → ℕ
htons v = v % 256 * 256 + v / 256 % 256

unfoldable pub htonl : ℕ → ℕ
htonl v =
    v % 256 * 0x1000000 + v / 256 % 256 * 0x10000 + v / 0x10000 % 256 * 0x100 + v / 0x1000000 % 256

-- A write through a `char *`, a `short *` or an `int *`: the offset and the value.
pub data Put : Type 0 where
  char short int : (offset value : ℕ) → Put

pub put8 : List ℕ → (offset value : ℕ) → Option (List ℕ)
put8 mem a v = store mem a (u8 v)

pub put16 : List ℕ → (offset value : ℕ) → Option (List ℕ)
unfolding put8
put16 mem a v = put8 mem a v >>= λ m. put8 m (a + 1) (v / 256)

pub put32 : List ℕ → (offset value : ℕ) → Option (List ℕ)
unfolding put16 put8
put32 mem a v = put16 mem a v >>= λ m. put16 m (a + 2) (v / 0x10000)

pub put : Put → List ℕ → Option (List ℕ)
unfolding put8 put16 put32
put (char a v) mem = put8 mem a v
put (short a v) mem = put16 mem a v
put (int a v) mem = put32 mem a v

unfoldable pub puts : List Put → List ℕ → Option (List ℕ)
unfolding put
puts [] mem = some mem
puts (p ∷ ps) mem = put p mem >>= puts ps

-- A structure is filled by `before`; the checksum of the bytes from `start` to `end` goes to the
-- offset `field`; then `after` is written.
unfoldable pub sealed :
    (before : List Put) (start field end : ℕ) (after : List Put) → List ℕ → Option (List ℕ)
sealed before start field end after mem = do
  filled ← puts before mem
  c ← checksum (end + 1) filled start end
  summed ← put16 filled field c
  puts after summed

-- The bytes that `strcpy` copies, with the zero byte that ends them; `none` is a text without end.
unfoldable pub string_at : ℕ → List ℕ → ℕ → Option (List ℕ)
string_at zero m a = none
string_at (suc left) m a = do
  c ← get_elem? m a
  let rest = string_at left m (a + 1) >>= λ cs. some (c ∷ cs)
  if c == 0 then some (c ∷ []) else rest

-- The writes of a string.
unfoldable pub copied : List ℕ → ℕ → List Put
copied [] a = []
copied (c ∷ cs) a = char a c ∷ copied cs (a + 1)
