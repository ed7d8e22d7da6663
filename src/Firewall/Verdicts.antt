-- ===== src/Firewall/Verdicts.antt =====
-- Which packets `capture` drops, before and after the port is updated (les30_firewall/firewall.c).
use summer_school.Base.{ℕ, ◌<◌, ◌^◌, ◌≡◌, ◌≢◌, ◌⊎◌, ◌↔◌, Option, some, List, arith}
use summer_school.Firewall.{
  nf_accept, nf_drop, ipproto_tcp, ipproto_udp, SkBuff, capture, port_update,
}

-- The packet is a UDP or a TCP one to the port in the header's byte order.
abbrev pub SentTo : ℕ → SkBuff → Type 0
SentTo net_port skb =
    ((skb.protocol ≡ ipproto_udp) × (skb.udp_dest ≡ net_port))
    ⊎ ((skb.protocol ≡ ipproto_tcp) × (skb.tcp_dest ≡ net_port))

accepted :
    (htons : ℕ → ℕ) (p : ℕ) (skb : SkBuff)
    → ¬ SentTo (htons p) skb
    → capture htons p skb ≡ nf_accept
unfolding capture
accepted htons p skb out = grind arith

-- `capture` drops a packet exactly when it is sent to the blocked port, and accepts it otherwise.
pub capture-eq-drop :
    (htons : ℕ → ℕ) (blocked_port : ℕ) (skb : SkBuff)
    → ((capture htons blocked_port skb ≡ nf_drop) ↔ SentTo (htons blocked_port) skb)
      × ((capture htons blocked_port skb ≡ nf_accept) ↔ (¬ SentTo (htons blocked_port) skb))
unfolding capture
capture-eq-drop htons p skb =
    ((ground arith, ground arith), (ground arith, λ out. accepted htons p skb out))

-- The module blocks one port at a time: an update that reads another `port` makes it accept the
-- packets to the port blocked before, which it dropped. `htons` is one-to-one on 16-bit ports.
pub capture-port_update :
    (htons : ℕ → ℕ) (scan_hu : List ℕ → Option ℕ) (old port len : ℕ) (buffer : List ℕ)
    (skb : SkBuff)
    → ((a b : ℕ) → a < 2 ^ 16 → b < 2 ^ 16 → htons a ≡ htons b → a ≡ b)
    → scan_hu buffer ≡ some port
    → old < 2 ^ 16
    → port < 2 ^ 16
    → old ≢ port
    → SentTo (htons old) skb
    → (capture htons old skb ≡ nf_drop)
      × (capture htons (port_update scan_hu old buffer len).0 skb ≡ nf_accept)
unfolding capture port_update
capture-port_update htons scan_hu old port len buffer skb inj read h k ne sent =
    (ground arith, ground (arith, inj old port h k))
