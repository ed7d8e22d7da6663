-- ===== src/KernelPing/Address.antt =====
-- The address that `create_address` builds, and the request that carries it
-- (les31_kernel_ping/ping.c).
use summer_school.Base.{ℕ, ◌+◌, ◌*◌, ◌<◌, ◌≡◌, some, List, ◌∷◌, arith}
use summer_school.KernelPing.{create_address}

-- `create_address` reads the four bytes as one big-endian number, with no overflow of its `u32`.
pub create_address-eq :
    (a b c d : ℕ) (rest : List ℕ)
    → a < 256
    → b < 256
    → c < 256
    → d < 256
    → create_address (a ∷ b ∷ c ∷ d ∷ rest) ≡ some (a * 0x1000000 + b * 0x10000 + c * 0x100 + d)
unfolding create_address
create_address-eq a b c d rest ha hb hc hd = ground arith

-- Two addresses with the same number have the same four bytes.
pub create_address-injective :
    (a b c d a' b' c' d' : ℕ) (rest rest' : List ℕ)
    → (a < 256) × (b < 256) × (c < 256) × (d < 256)
    → (a' < 256) × (b' < 256) × (c' < 256) × (d' < 256)
    → create_address (a ∷ b ∷ c ∷ d ∷ rest) ≡ create_address (a' ∷ b' ∷ c' ∷ d' ∷ rest')
    → (a ≡ a') × (b ≡ b') × (c ≡ c') × (d ≡ d')
create_address-injective a b c d a' b' c' d' rest rest' h h' e = ground (
  arith,
  create_address-eq a b c d rest h.0 h.1 h.2 h.3,
  create_address-eq a' b' c' d' rest' h'.0 h'.1 h'.2 h'.3,
)
