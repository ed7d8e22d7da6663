-- ===== src/Checksum/Examples.antt =====
-- The checksum functions on concrete headers.
use summer_school.Base.{ℕ, zero, suc, ◌-◌, ◌<◌, ◌≡◌, refl, some, List, [], ◌∷◌, All, arith}
use summer_school.Checksum.{checksum, gen_crc16}
use summer_school.Checksum.Sum.{IsBytes, word, total, ones_sum}
use summer_school.Checksum.Verify.{checksum-eq, gen_crc16-eq-checksum, store16, checksum-store16}

IsBytes-All : (mem : List ℕ) → All (λ b. b < 256) mem → IsBytes mem
IsBytes-All [] h i = omega arith
IsBytes-All (x ∷ xs) h zero = h.0
IsBytes-All (x ∷ xs) h (suc i) = IsBytes-All xs h.1 i

-- An ICMP echo request, its checksum field at zero.
abbrev echo : List ℕ
echo = 8 ∷ 0 ∷ 0 ∷ 0 ∷ 0x12 ∷ 0x34 ∷ 0xff ∷ 0xfe ∷ []

-- The same with a stale checksum field.
abbrev stale : List ℕ
stale = 8 ∷ 0 ∷ 7 ∷ 0 ∷ 0x12 ∷ 0x34 ∷ 0xff ∷ 0xfe ∷ []

echo-IsBytes : IsBytes echo
echo-IsBytes = IsBytes-All echo (omega arith)

stale-IsBytes : IsBytes stale
stale-IsBytes = IsBytes-All stale (omega arith)

echo_runs : checksum 9 echo 0 8 ≡ some 0xcce5
unfolding checksum
echo_runs = refl

stale_runs : checksum 9 stale 0 8 ≡ some 0xccde
unfolding checksum
stale_runs = refl

checksum-eq_example : checksum 9 echo 0 8 ≡ some (0xFFFF - ones_sum (total echo 0 4))
checksum-eq_example =
    checksum-eq 9 echo 0 4 8 echo-IsBytes (omega arith) (omega arith) (omega arith)

gen_crc16-eq-checksum_example : gen_crc16 echo 0 4 ≡ checksum 9 echo 0 8
gen_crc16-eq-checksum_example =
    gen_crc16-eq-checksum 9 echo 0 4 8 echo-IsBytes (omega arith) (omega arith) (omega arith)
      (omega arith)

checksum-store16_example : checksum 9 (store16 echo 2 0xcce5) 0 8 ≡ some 0
checksum-store16_example =
    checksum-store16 9 echo 0 4 1 8 0xcce5 echo-IsBytes (omega arith) (omega arith) (omega arith)
      (omega arith) echo_runs (unfold word in refl)
