-- ===== src/CharDriver/Examples.antt =====
-- The character device on concrete buffers (les29_linux_modules/driver.c).
use summer_school.Base.{ℕ, zero, suc, ◌≡◌, refl, some, List, [], ◌∷◌, drop, replicate, arith}
use summer_school.CharDriver.{driver_write}
use summer_school.CharDriver.Lines.{IsLine, driver_write_line}

abbrev blank : List ℕ
blank = replicate 256 0

driver_write_line_example :
    driver_write 9 blank (b'h' ∷ b'i' ∷ 10 ∷ b'x' ∷ []) 4
    ≡ some (b'h' ∷ b'i' ∷ 10 ∷ 0 ∷ drop 4 blank, 4)
driver_write_line_example =
    driver_write_line 9 (b'h' ∷ b'i' ∷ []) (b'x' ∷ []) blank 4 (omega arith) (omega arith) refl
      (omega arith)

abbrev long_text : List ℕ
long_text = replicate 255 b'a'

long_text_IsLine : (n : ℕ) → IsLine (replicate n b'a')
long_text_IsLine zero = tt
long_text_IsLine (suc n) = (omega arith, long_text_IsLine n)
