-- ===== src/Base/Words.antt =====
-- Machine words: a w-bit word is a number below 2 ^ w, and arithmetic wraps.
use Prim.Native.Nat.{ℕ, ◌-◌, ◌%◌, ◌^◌}

abbrev pub u8 : ℕ → ℕ
u8 n = n % 2 ^ 8

abbrev pub u16 : ℕ → ℕ
u16 n = n % 2 ^ 16

abbrev pub u32 : ℕ → ℕ
u32 n = n % 2 ^ 32

-- Bitwise complement cut to 16 bits.
abbrev pub not16 : ℕ → ℕ
not16 n = 2 ^ 16 - 1 - u16 n
