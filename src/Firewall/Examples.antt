-- ===== src/Firewall/Examples.antt =====
-- The packet filter on concrete packets (les30_firewall/firewall.c).
use summer_school.Base.{ℕ, ◌+◌, ◌*◌, ◌/◌, ◌%◌, Option, none, some, List, [], ◌∷◌}
use summer_school.Firewall.{SkBuff}

-- Network order on a little-endian host.
abbrev swap_bytes : ℕ → ℕ
swap_bytes n = n % 256 * 256 + n / 256

-- A scanner for the examples: the first byte of the buffer is the port.
abbrev first_byte : List ℕ → Option ℕ
first_byte [] = none
first_byte (b ∷ bs) = some b

abbrev https : SkBuff
https = record { protocol = 6; udp_dest = 0; tcp_dest = swap_bytes 443 }
