-- ===== src/KernelPing/Control.antt =====
-- The control attribute of the ping module, its requests and its load (les31_kernel_ping/ping.c).
use summer_school.Base.{
  ℕ, ◌+◌, ◌*◌, ◌%◌, ◌<◌, ◌≡◌, ◌≢◌, ◌↔◌, refl, true, Bool, none, some, List, [], ◌∷◌, arith,
}
use summer_school.Checksum.{checksum, gen_crc16}
use summer_school.Firewall.{unloaded, loaded}
use summer_school.KernelPing.{
  Globals, Sent, ping_create, addr_oper, Locals, oper_update, oper_ping, mod_start,
}
use summer_school.KernelPing.Address.{create_address-eq}

-- The echo request that `ping_create` sends, when it has a socket, goes to the number of the four
-- bytes of `ip` in network order, and a receiver's checksum over its eight bytes is 0.
pub ping_create_lem :
    (htonl : ℕ → ℕ) (g : Globals) (a b c d : ℕ) (rest : List ℕ)
    → g.ip ≡ a ∷ b ∷ c ∷ d ∷ rest
    → a < 256
    → b < 256
    → c < 256
    → d < 256
    → (s : Sent) × (ping_create htonl true g ≡ some s)
      × (s.s_addr ≡ htonl (a * 0x1000000 + b * 0x10000 + c * 0x100 + d))
      × (checksum 5 s.payload 0 8 ≡ some 0)
unfolding ping_create gen_crc16 checksum
ping_create_lem htonl g a b c d rest e ha hb hc hd = (
  record {
    s_addr = htonl (a * 0x1000000 + b * 0x10000 + c * 0x100 + d);
    payload = 8 ∷ 0 ∷ 0xf7 ∷ 0xff ∷ 0 ∷ 0 ∷ 0 ∷ 0 ∷ [];
  },
  rw e (rw (create_address-eq a b c d rest ha hb hc hd) refl),
  refl,
  refl,
)

module _ (htonl : ℕ → ℕ) (scan : ℕ → List ℕ → List ℕ) (sock_ok : Bool) (junk : Locals) (g : Globals)
    (buffer : List ℕ) where
  -- An update that names all four numbers stores their low bytes and sends nothing.
  pub addr_oper_update :
      (w x y z v a b c d : ℕ)
      → g.ip ≡ w ∷ x ∷ y ∷ z ∷ v ∷ []
      → scan 1 buffer ≡ oper_update ∷ []
      → scan 5 buffer ≡ oper_update ∷ a ∷ b ∷ c ∷ d ∷ []
      → addr_oper htonl scan sock_ok junk g buffer
        ≡ (record g { ip = a % 256 ∷ b % 256 ∷ c % 256 ∷ d % 256 ∷ v ∷ [] }, none)
  unfolding addr_oper
  addr_oper_update w x y z v a b c d e r s = simp (r, s, e)

  -- An update with only one number after the operation stores three bytes of the stack: the
  -- address then depends on locals that were never assigned.
  pub addr_oper_partial :
      (w x y z v a : ℕ)
      → g.ip ≡ w ∷ x ∷ y ∷ z ∷ v ∷ []
      → scan 1 buffer ≡ oper_update ∷ []
      → scan 5 buffer ≡ oper_update ∷ a ∷ []
      → (addr_oper htonl scan sock_ok junk g buffer).0.ip
        ≡ a % 256 ∷ junk.b % 256 ∷ junk.c % 256 ∷ junk.d % 256 ∷ v ∷ []
  unfolding addr_oper
  addr_oper_partial w x y z v a e r s = simp (r, s, e)

  -- A ping keeps the state.
  pub addr_oper_ping :
      scan 1 buffer ≡ oper_ping ∷ []
      → addr_oper htonl scan sock_ok junk g buffer ≡ (g, ping_create htonl sock_ok g)
  unfolding addr_oper
  addr_oper_ping r = simp r

  -- Any other operation changes nothing and sends nothing.
  pub addr_oper_other :
      (o : ℕ)
      → scan 1 buffer ≡ o ∷ []
      → o ≢ oper_update
      → o ≢ oper_ping
      → addr_oper htonl scan sock_ok junk g buffer ≡ (g, none)
  unfolding addr_oper
  addr_oper_other o r h k = ground arith

-- An update that names all four numbers, then a ping: the request goes to the address with those
-- bytes, and its checksum is right.
pub addr_oper_update_ping :
    (htonl : ℕ → ℕ) (scan : ℕ → List ℕ → List ℕ) (junk junk' : Locals) (g : Globals)
    (buffer buffer' : List ℕ) (w x y z v a b c d : ℕ)
    → g.ip ≡ w ∷ x ∷ y ∷ z ∷ v ∷ []
    → scan 1 buffer ≡ oper_update ∷ []
    → scan 5 buffer ≡ oper_update ∷ a ∷ b ∷ c ∷ d ∷ []
    → scan 1 buffer' ≡ oper_ping ∷ []
    → let g' = (addr_oper htonl scan true junk g buffer).0 in
      (s : Sent) × ((addr_oper htonl scan true junk' g' buffer').1 ≡ some s)
      × (s.s_addr ≡ htonl (a % 256 * 0x1000000 + b % 256 * 0x10000 + c % 256 * 0x100 + d % 256))
      × (checksum 5 s.payload 0 8 ≡ some 0)
addr_oper_update_ping htonl scan junk junk' g buffer buffer' w x y z v a b c d e r s t =
    rw (addr_oper_update htonl scan true junk g buffer w x y z v a b c d e r s) (
      rw (addr_oper_ping htonl scan true junk' _ buffer' t) (
        ping_create_lem htonl _ (a % 256) (b % 256) (c % 256) (d % 256) (v ∷ []) refl (omega arith)
          (omega arith) (omega arith) (omega arith)))

-- A load reports success exactly when the sysfs file is accepted, and then the module may be
-- loaded with no hook.
pub mod_start_iff :
    (hook_ok file_ok : Bool) → ((mod_start hook_ok file_ok unloaded).1 ≡ loaded) ↔ (file_ok ≡ true)
unfolding mod_start
mod_start_iff hook_ok file_ok = (ground arith, ground arith)
