-- ===== src/KernelPing/Examples.antt =====
-- The ping module on concrete buffers (les31_kernel_ping/ping.c).
use summer_school.Base.{ℕ, ◌+◌, ◌*◌, ◌%◌, ◌/◌, true, List, [], ◌∷◌, ◌==◌}
use summer_school.KernelPing.{Locals}

-- Network order of a 32-bit number on a little-endian host.
abbrev swap4 : ℕ → ℕ
swap4 n = n % 256 * 0x1000000 + n / 256 % 256 * 0x10000 + n / 65536 % 256 * 256 + n / 0x1000000

-- A scanner for the examples: a buffer is the list of the numbers in it.
abbrev scan : ℕ → List ℕ → List ℕ
scan k buffer = elim (k == 1) [ true ↦ first buffer | _ ↦ buffer ]
  where
    first : List ℕ → List ℕ
    first [] = []
    first (o ∷ rest) = o ∷ []

abbrev zeros : Locals
zeros = record { oper_type = 0; a = 0; b = 0; c = 0; d = 0 }
