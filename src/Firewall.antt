-- ===== src/Firewall.antt =====
-- The packet filter module, les30_firewall/firewall.c: the netfilter hook `capture`, the sysfs
-- attribute `port_update`, and the load and unload of the module. `htons`, `sscanf` and the kernel's
-- answers to the registrations are parameters.
pub mod Verdicts
pub mod Lifecycle
mod Examples
use summer_school.Base.{ℕ, Bool, true, false, Option, none, some, List, ◌==◌, if◌then◌else◌, not}

pub data Verdict : Type 0 where
  nf_accept nf_drop : Verdict

-- `IPPROTO_TCP` and `IPPROTO_UDP`.
abbrev pub ipproto_tcp : ℕ
ipproto_tcp = 6

abbrev pub ipproto_udp : ℕ
ipproto_udp = 17

-- What `capture` reads of a packet. The ports are in network order, as in the headers.
pub record SkBuff : Type 0 where
  pub protocol : ℕ
  pub udp_dest : ℕ
  pub tcp_dest : ℕ

pub capture : (ℕ → ℕ) → ℕ → SkBuff → Verdict
capture htons blocked_port skb =
    if skb.protocol == ipproto_udp
    then (if skb.udp_dest == htons blocked_port then nf_drop else nf_accept)
    else if skb.protocol == ipproto_tcp
    then (if skb.tcp_dest == htons blocked_port then nf_drop else nf_accept)
    else nf_accept

-- `sscanf(buffer, "%hu", &blockedPort)`: with no number in the buffer the port keeps its value.
-- The second component is the `len` that the attribute reports as consumed.
pub port_update : (List ℕ → Option ℕ) → ℕ → List ℕ → ℕ → ℕ × ℕ
port_update scan_hu blocked_port buffer len = elim (scan_hu buffer) [
  | none ↦ (blocked_port, len)
  | some port ↦ (port, len)
]

-- What the module holds in the kernel.
pub record Resources : Type 0 where
  pub hook : Bool
  pub kobj_refs : ℕ
  pub file : Bool

abbrev pub unloaded : Resources
unloaded = record { hook = false; kobj_refs = 0; file = false }

-- The value that the module's init function returns.
pub data Status : Type 0 where
  loaded : Status
  failed : Status

-- `mod_start`. `hook_ok` and `file_ok` are the answers of `nf_register_net_hook` (a zero) and of
-- `sysfs_create_file` (a zero). A non-zero result fails the load, and the kernel then does not call
-- `mod_exit`.
pub mod_start : Bool → Bool → Resources → Resources × Status
mod_start hook_ok file_ok r =
    let r₁ = record r { hook = hook_ok } in
    let r₂ = record r₁ { kobj_refs = 1 } in
    if not file_ok
    then (record r₂ { kobj_refs = 0; file = false }, failed)
    else (record r₂ { file = true }, if hook_ok then loaded else failed)

-- `mod_exit`. The last reference to the kobject takes its sysfs files away.
pub mod_exit : Resources → Resources
mod_exit r = record r { kobj_refs = 0; file = false; hook = false }
