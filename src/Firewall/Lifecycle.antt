-- ===== src/Firewall/Lifecycle.antt =====
-- Loading and unloading the packet filter (les30_firewall/firewall.c).
use summer_school.Base.{Bool, true, false, ◌≡◌, ◌↔◌, arith}
use summer_school.Firewall.{unloaded, loaded, failed, mod_start, mod_exit}

-- A load from nothing succeeds exactly when both registrations are accepted.
pub mod_start_iff :
    (hook_ok file_ok : Bool)
    → ((mod_start hook_ok file_ok unloaded).1 ≡ loaded) ↔ ((hook_ok ≡ true) × (file_ok ≡ true))
unfolding mod_start
mod_start_iff hook_ok file_ok = (ground arith, ground arith)

-- A load that fails, and so is never unloaded by `mod_exit`, leaves nothing behind exactly when
-- both registrations were refused: a hook that was accepted stays when the file is refused, and the
-- file stays when the hook is.
pub mod_start_failed :
    (hook_ok file_ok : Bool)
    → (mod_start hook_ok file_ok unloaded).1 ≡ failed
    → ((mod_start hook_ok file_ok unloaded).0 ≡ unloaded) ↔ ((hook_ok ≡ false) × (file_ok ≡ false))
unfolding mod_start
mod_start_failed hook_ok file_ok e = (ground arith, ground arith)

-- An unload after a load gives everything back.
pub mod_exit-mod_start :
    (hook_ok file_ok : Bool) → mod_exit (mod_start hook_ok file_ok unloaded).0 ≡ unloaded
unfolding mod_start mod_exit
mod_exit-mod_start hook_ok file_ok = ground arith
