-- ===== src/KernelPing.antt =====
-- The ping module, les31_kernel_ping/ping.c: the address built from four bytes, the control
-- attribute `addr_oper`, the echo request of `ping_create`, the netfilter hook `capture` and the
-- load and unload of the module. `htonl`, `sscanf` and the kernel's answers are parameters; the
-- checksum is `gen_crc16` of the module Checksum.
pub mod Address
pub mod Control
mod Examples
use summer_school.Base.{
  ℕ, zero, suc, ◌+◌, ◌*◌, ◌%◌, ◌/◌, ◌-◌, Bool, true, false, Option, none, some, List, [], ◌∷◌,
  get_elem?, set, ◌==◌, if◌then◌else◌, not, u32, ◌>>=◌, replicate,
}
use summer_school.Checksum.{gen_crc16}
use summer_school.Firewall.{Resources, Status, loaded, failed}

-- The loop of `create_address` at index `i`, with `left` rounds to go; it leaves by `break` at 3.
pub address_from : ℕ → List ℕ → ℕ → ℕ → Option ℕ
address_from zero ip i addr = some addr
address_from (suc left) ip i addr = do
  x ← get_elem? ip i
  let a = u32 (addr + x)
  let rest = address_from left ip (i + 1) (u32 (a * 256))
  if i == 3 then some a else rest

pub create_address : List ℕ → Option ℕ
unfolding address_from
create_address ip = address_from 4 ip 0 0

-- The text that the last ping left, `char response[256]`.
pub data Response : Type 0 where
  unknown : Response
  got_answer : ℕ → ℕ → Response

-- `ip` has five bytes, of which four are used.
pub record Globals : Type 0 where
  pub ip : List ℕ
  pub response : Response

abbrev pub initial : Globals
initial = record { ip = 127 ∷ 0 ∷ 0 ∷ 1 ∷ 0 ∷ []; response = unknown }

-- A datagram handed to `kernel_sendmsg`.
pub record Sent : Type 0 where
  pub s_addr : ℕ
  pub payload : List ℕ

-- A `u16` assigned to the checksum field of the header, at bytes 2 and 3.
abbrev put_checksum : List ℕ → ℕ → List ℕ
put_checksum icmph c = set (set icmph 2 (c % 256)) 3 (c / 256)

-- `struct icmphdr`: zeroed, then type 8 (echo request) and code 0.
abbrev pub echo_header : List ℕ
echo_header = set (set (replicate 8 0) 0 8) 1 0

-- `ping_create`: with no socket it returns -1 (`none`) and sends nothing.
pub ping_create : (ℕ → ℕ) → Bool → Globals → Option Sent
ping_create htonl sock_ok g = if not sock_ok then none else do
  addr ← create_address g.ip
  crc ← gen_crc16 echo_header 0 4
  some (record { s_addr = htonl addr; payload = put_checksum echo_header crc })

-- The locals of `addr_oper`, as bit patterns; before `sscanf` they are indeterminate.
pub record Locals : Type 0 where
  pub oper_type : ℕ
  pub a : ℕ
  pub b : ℕ
  pub c : ℕ
  pub d : ℕ

-- `sscanf` assigns the numbers that it converts, in order, and leaves the other variables.
pub assign : Locals → List ℕ → Locals
assign l [] = l
assign l (o ∷ []) = record l { oper_type = o }
assign l (o ∷ a ∷ []) = record l { oper_type = o; a = a }
assign l (o ∷ a ∷ b ∷ []) = record l { oper_type = o; a = a; b = b }
assign l (o ∷ a ∷ b ∷ c ∷ []) = record l { oper_type = o; a = a; b = b; c = c }
assign l (o ∷ a ∷ b ∷ c ∷ d ∷ _) = record { oper_type = o; a = a; b = b; c = c; d = d }

abbrev pub oper_ping : ℕ
oper_ping = 1

abbrev pub oper_update : ℕ
oper_update = 2

-- `addr_oper`. `scan k buffer` is what `sscanf` converts with `k` times `%i`. The result is the new
-- state and what was sent; the attribute always reports `len` as consumed.
pub addr_oper :
    (ℕ → ℕ) → (ℕ → List ℕ → List ℕ) → Bool → Locals → Globals → List ℕ → Globals × Option Sent
unfolding assign
addr_oper htonl scan sock_ok junk g buffer =
    let l = assign junk (scan 1 buffer) in
    let m = assign l (scan 5 buffer) in
    let ip' = set (set (set (set g.ip 0 (m.a % 256)) 1 (m.b % 256)) 2 (m.c % 256)) 3 (m.d % 256) in
    if l.oper_type == oper_update
    then (record g { ip = ip' }, none)
    else if l.oper_type == oper_ping
    then (g, ping_create htonl sock_ok g)
    else (g, none)

abbrev pub ipproto_icmp : ℕ
ipproto_icmp = 1

-- `capture`: the hook accepts every packet and records the type and code of an ICMP one.
pub capture : Globals → (protocol type code : ℕ) → Globals
capture g protocol type code =
    if protocol == ipproto_icmp then record g { response = got_answer type code } else g

-- `mod_start`. The result of `nf_register_net_hook` is not looked at; a file that is refused fails
-- the load, after `kobject_put`.
pub mod_start : Bool → Bool → Resources → Resources × Status
mod_start hook_ok file_ok r =
    let r₁ = record r { hook = hook_ok; kobj_refs = 1 } in
    if not file_ok
    then (record r₁ { kobj_refs = 0; file = false }, failed)
    else (record r₁ { file = true }, loaded)
