-- ===== src/CharDriver/Modules.antt =====
-- The loads and unloads of the three modules: `mod_start` and `mod_exit` of
-- les29_linux_modules/driver.c, `hello_proc_init` and `hello_proc_exit` of proc_module.c and of
-- sys_module.c. What the kernel answers is an argument, true for a success.
use summer_school.Base.{ℕ, ◌≡◌, ◌↔◌, refl, Bool, true, false, if◌then◌else◌}

-- What the modules hold in the kernel, and the flag.
pub record Registered : Type 0 where
  pub chrdev : Bool
  pub proc : Bool
  pub kobj_refs : ℕ
  pub sysfs : Bool
  pub transaction_complete : ℕ

abbrev pub nothing : ℕ → Registered
nothing flag = record {
  chrdev = false;
  proc = false;
  kobj_refs = 0;
  sysfs = false;
  transaction_complete = flag;
}

pub data Status : Type 0 where
  loaded failed : Status

-- `mod_start` and `mod_exit` of driver.c.
abbrev pub driver_init : Bool → Registered → Registered × Status
driver_init accepted r = if accepted then (record r { chrdev = true }, loaded) else (r, failed)

abbrev pub driver_exit : Registered → Registered
driver_exit r = record r { chrdev = false }

-- proc_module.c, which does not look at what `proc_create` returns.
abbrev pub proc_init : Bool → Registered → Registered × Status
proc_init accepted r = (record r { transaction_complete = 0; proc = accepted }, loaded)

abbrev pub proc_exit : Registered → Registered
proc_exit r = record r { proc = false }

-- sys_module.c. The last `kobject_put` takes the file away too.
abbrev pub sys_init : Bool → Registered → Registered × Status
sys_init accepted r =
    let r₁ = record r { transaction_complete = 0; kobj_refs = 1 } in
    if accepted
    then (record r₁ { sysfs = true }, loaded)
    else (record r₁ { kobj_refs = 0; sysfs = false }, failed)

abbrev pub sys_exit : Registered → Registered
sys_exit r = record r { kobj_refs = 0; sysfs = false }

-- Whatever the kernel answers, a load of the three modules from nothing and their unload leaves
-- nothing behind, and so does a load of driver.c or of sys_module.c that fails. Those two fail
-- exactly when the kernel refuses; the load of proc_module.c always reports success.
pub modules_lem :
    (accepted : Bool) (flag : ℕ)
    → let (d, d_status) = driver_init accepted (nothing flag) in
      let (p, p_status) = proc_init accepted (nothing flag) in
      let (s, s_status) = sys_init accepted (nothing flag) in
      ((driver_exit d ≡ nothing flag) × (proc_exit p ≡ nothing 0) × (sys_exit s ≡ nothing 0))
      × ((d_status ≡ failed → d ≡ nothing flag) × (s_status ≡ failed → s ≡ nothing 0))
      × (((d_status ≡ loaded) ↔ (accepted ≡ true)) × ((s_status ≡ loaded) ↔ (accepted ≡ true)))
      × (p_status ≡ loaded)
modules_lem true flag = (
  (refl, refl, refl),
  ((λ h. absurd (cc)), λ h. absurd (cc)),
  ((λ h. refl, λ h. refl), (λ h. refl, λ h. refl)),
  refl,
)
modules_lem false flag = (
  (refl, refl, refl),
  ((λ h. refl), λ h. refl),
  ((λ h. absurd (cc), λ h. absurd (cc)), (λ h. absurd (cc), λ h. absurd (cc))),
  refl,
)
