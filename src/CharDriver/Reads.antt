-- ===== src/CharDriver/Reads.antt =====
-- Reading the device (les29_linux_modules/driver.c, proc_module.c, sys_module.c).
use summer_school.Base.{
  ℕ, ◌≡◌, ◌≢◌, ◌≤◌, ◌⊎◌, if◌then◌else◌, some, none, [], ◌∷◌, length, arith, ◌==◌, zero, suc,
}
use summer_school.CharDriver.{unworthy, driver_read, read_all}

-- A read reports the length of the text that it wrote, or 0 with no text, and toggles the flag; so
-- two reads bring the flag back.
pub driver_read_lem :
    (flag : ℕ)
    → flag ≤ 1
    → let r = driver_read flag in
      (((r.text ≡ some unworthy) × (r.count ≡ length unworthy)) ⊎ ((r.text ≡ none) × (r.count ≡ 0)))
      × (r.transaction_complete ≢ flag)
      × ((driver_read r.transaction_complete).transaction_complete ≡ flag)
unfolding driver_read
driver_read_lem flag h = ground arith

-- A reader that starts with the flag clear gets the text once and leaves the flag clear for the
-- next one, with two reads or more of fuel; one that starts with the flag set gets nothing.
pub read_all_lem :
    (fuel flag : ℕ)
    → 2 ≤ fuel
    → read_all fuel flag ≡ some (0, if flag == 0 then unworthy ∷ [] else [])
unfolding read_all driver_read
read_all_lem zero flag h = absurd (omega arith)
read_all_lem (suc zero) flag h = absurd (omega arith)
read_all_lem (suc (suc fuel)) flag h = ground arith
