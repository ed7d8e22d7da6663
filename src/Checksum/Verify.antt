-- ===== src/Checksum/Verify.antt =====
-- What a sender and a receiver of a checksummed header may rely on (les26 to les28, les31).
use summer_school.Base.{
  ℕ, zero, suc, ◌+◌, ◌-◌, ◌*◌, ◌/◌, ◌%◌, ◌≤◌, ◌<◌, ◌≡◌, ◌≢◌, ◌↔◌, refl, [], ◌∷◌, none, some, List,
  ◌^◌, u16, get_or, set, get_or-set_self, get_or-set_ne, length-set, length, arith,
}
use summer_school.Checksum.{checksum, gen_crc16}
use summer_school.Checksum.Sum.{
  IsBytes, word, word-le, total, ones_sum, ones_sum-le, sum_words-eq, crc_words-eq, sum_words-odd,
}

-- Over `n` words inside the memory `checksum` returns the complement of their one's complement
-- sum, for every fuel above `n`.
pub checksum-eq :
    (fuel : ℕ) (mem : List ℕ) (a n end : ℕ)
    → IsBytes mem
    → a + 2 * n ≡ end
    → end ≤ length mem
    → n < fuel
    → checksum fuel mem a end ≡ some (0xFFFF - ones_sum (total mem a n))
unfolding checksum ones_sum
checksum-eq fuel mem a n end b e h f = ground (arith, sum_words-eq fuel mem a n end 0 b e h f)

-- The kernel module's `gen_crc16`, which counts words, agrees with `checksum`, which compares
-- pointers, on every run of fewer than 2 ^ 16 words inside the memory. (The `u16` that holds their
-- number would wrap around at more.)
pub gen_crc16-eq-checksum :
    (fuel : ℕ) (mem : List ℕ) (a n end : ℕ)
    → IsBytes mem
    → a + 2 * n ≡ end
    → end ≤ length mem
    → n < fuel
    → n < 2 ^ 16
    → gen_crc16 mem a n ≡ checksum fuel mem a end
unfolding checksum gen_crc16 ones_sum
gen_crc16-eq-checksum fuel mem a n end b e h f k =
    let size : u16 n ≡ n = omega arith in
    rw size (
      ground
        (arith, sum_words-eq fuel mem a n end 0 b e h f, crc_words-eq n mem a 0 b (omega arith)))

-- Over an odd number of bytes `checksum` never returns: it runs out of the memory, whatever the
-- fuel.
pub checksum_odd :
    (fuel : ℕ) (mem : List ℕ) (a end : ℕ) → a % 2 ≢ end % 2 → checksum fuel mem a end ≡ none
unfolding checksum
checksum_odd fuel mem a end h = ground (arith, sum_words-odd fuel mem a end 0 h)

-- A 16-bit store on a little-endian host.
abbrev pub store16 : List ℕ → ℕ → ℕ → List ℕ
store16 mem a v = set (set mem a (v % 256)) (a + 1) (v / 256)

word-store16 :
    (mem : List ℕ) (a v : ℕ) → a + 1 < length mem → v ≤ 0xFFFF → word (store16 mem a v) a ≡ v
unfolding word
word-store16 mem a v h r = omega (
  arith,
  get_or-set_self (set mem a (v % 256)) (a + 1) (v / 256) 0
      (omega (arith, length-set mem a (v % 256))),
  get_or-set_ne (set mem a (v % 256)) (a + 1) a (v / 256) 0 (omega arith),
  get_or-set_self mem a (v % 256) 0 (omega arith),
)

word-store16_ne :
    (mem : List ℕ) (a b v : ℕ)
    → a ≢ b
    → a + 1 ≢ b
    → a ≢ b + 1
    → word (store16 mem a v) b ≡ word mem b
unfolding word
word-store16_ne mem a b v h k l = omega (
  arith,
  get_or-set_ne (set mem a (v % 256)) (a + 1) b (v / 256) 0 k,
  get_or-set_ne mem a b (v % 256) 0 h,
  get_or-set_ne (set mem a (v % 256)) (a + 1) (b + 1) (v / 256) 0 (omega arith),
  get_or-set_ne mem a (b + 1) (v % 256) 0 l,
)

-- A store below a run of words does not change its sum.
total-store16_below :
    (n : ℕ) (mem : List ℕ) (a b v : ℕ) → a + 1 < b → total (store16 mem a v) b n ≡ total mem b n
unfolding total
total-store16_below zero mem a b v h = refl
total-store16_below (suc n) mem a b v h = omega (
  arith,
  word-store16_ne mem a b v (omega arith) (omega arith) (omega arith),
  total-store16_below n mem a (b + 2) v (omega arith),
)

-- A store at the `k`-th word exchanges that word in the sum.
total-store16 :
    (n : ℕ) (mem : List ℕ) (k a field v : ℕ)
    → a + 2 * k ≡ field
    → k < n
    → field + 1 < length mem
    → v ≤ 0xFFFF
    → total (store16 mem field v) a n + word mem field ≡ total mem a n + v
unfolding total
total-store16 zero mem k a field v e h i r = absurd (omega arith)
total-store16 (suc n) mem zero a field v e h i r =
    let same : a ≡ field = omega arith in
    rw same (
      omega (
        arith,
        word-store16 mem field v i r,
        total-store16_below n mem field (field + 2) v (omega arith),
      ))
total-store16 (suc n) mem (suc k) a field v e h i r = omega (
  arith,
  word-store16_ne mem field a v (omega arith) (omega arith) (omega arith),
  total-store16 n mem k (a + 2) field v (omega arith) (omega arith) i r,
)

get_or-set_lt :
    (mem : List ℕ) (i j v : ℕ) → get_or mem j 0 < 256 → v < 256 → get_or (set mem i v) j 0 < 256
get_or-set_lt [] i j v h r = omega arith
get_or-set_lt (x ∷ xs) zero zero v h r = r
get_or-set_lt (x ∷ xs) zero (suc j) v h r = h
get_or-set_lt (x ∷ xs) (suc i) zero v h r = h
get_or-set_lt (x ∷ xs) (suc i) (suc j) v h r = get_or-set_lt xs i j v h r

pub IsBytes-set : (mem : List ℕ) (i v : ℕ) → IsBytes mem → v < 256 → IsBytes (set mem i v)
IsBytes-set mem i v b r j = get_or-set_lt mem i j v (b j) r

IsBytes-store16 : (mem : List ℕ) (a v : ℕ) → IsBytes mem → v ≤ 0xFFFF → IsBytes (store16 mem a v)
IsBytes-store16 mem a v b r =
    IsBytes-set (set mem a (v % 256)) (a + 1) (v / 256)
      (IsBytes-set mem a (v % 256) b (omega arith)) (omega arith)

length-store16 : (mem : List ℕ) (a v : ℕ) → length (store16 mem a v) ≡ length mem
length-store16 mem a v =
    omega (arith, length-set (set mem a (v % 256)) (a + 1) (v / 256), length-set mem a (v % 256))

-- Both directions of the receiver's test, in terms of the sum after the store.
checksum-eq-zero_iff :
    (fuel : ℕ) (mem : List ℕ) (a n end : ℕ)
    → IsBytes mem
    → a + 2 * n ≡ end
    → end ≤ length mem
    → n < fuel
    → (checksum fuel mem a end ≡ some 0) ↔ (ones_sum (total mem a n) ≡ 0xFFFF)
checksum-eq-zero_iff fuel mem a n end b e h f = (
  λ q. ground (arith, checksum-eq fuel mem a n end b e h f, ones_sum-le (total mem a n)),
  λ q. ground (arith, checksum-eq fuel mem a n end b e h f),
)

complement : (t c : ℕ) → c ≡ 0xFFFF - ones_sum t → ((t + c) % 0xFFFF ≡ 0) × (0 < t + c)
unfolding ones_sum
complement t c h = ground arith

full : (t : ℕ) → t % 0xFFFF ≡ 0 → 0 < t → ones_sum t ≡ 0xFFFF
unfolding ones_sum
full t h k = ground arith

class_of_full : (t : ℕ) → ones_sum t ≡ 0xFFFF → t % 0xFFFF ≡ 0
unfolding ones_sum
class_of_full t h = ground arith

-- Storing the complement `c` of the sum `t` over the word `g` gives a sum `t'` of class 0 exactly
-- when `g` is of class 0.
ones_sum_exchange :
    (t t' g c : ℕ)
    → c ≡ 0xFFFF - ones_sum t
    → t' + g ≡ t + c
    → g ≤ 0xFFFF
    → g ≤ t
    → (g ≡ 0 → ones_sum t' ≡ 0xFFFF) × (g ≢ 0 → g ≢ 0xFFFF → ones_sum t' ≢ 0xFFFF)
ones_sum_exchange t t' g c hc e r l = (
  λ z. full t' (omega (arith, complement t c hc)) (omega (arith, complement t c hc)),
  λ z z' p. omega (arith, complement t c hc, class_of_full t' p),
)

word-le-total :
    (n : ℕ) (mem : List ℕ) (k a field : ℕ)
    → a + 2 * k ≡ field
    → k < n
    → word mem field ≤ total mem a n
unfolding total
word-le-total zero mem k a field e h = absurd (omega arith)
word-le-total (suc n) mem zero a field e h =
    let same : a ≡ field = omega arith in rw same (omega arith)
word-le-total (suc n) mem (suc k) a field e h =
    omega (arith, word-le-total n mem k (a + 2) field (omega arith) (omega arith))

-- The sender: it runs `checksum` over `n` words from `a`, and stores the result `c` at the `k`-th.
module _ (fuel : ℕ) (mem : List ℕ) (a n k end c : ℕ) (b : IsBytes mem) (e : a + 2 * n ≡ end)
    (h : end ≤ length mem) (f : n < fuel) (i : k < n) (q : checksum fuel mem a end ≡ some c) where
  sent : List ℕ
  sent = store16 mem (a + 2 * k) c

  result : c ≡ 0xFFFF - ones_sum (total mem a n)
  result = ground (arith, checksum-eq fuel mem a n end b e h f)

  received : (checksum fuel sent a end ≡ some 0) ↔ (ones_sum (total sent a n) ≡ 0xFFFF)
  unfolding sent
  received =
      checksum-eq-zero_iff fuel sent a n end
        (IsBytes-store16 mem (a + 2 * k) c b (omega (arith, result))) e
        (omega (arith, length-store16 mem (a + 2 * k) c)) f

  exchanged :
      (word mem (a + 2 * k) ≡ 0 → ones_sum (total sent a n) ≡ 0xFFFF)
      × (word mem (a + 2 * k) ≢ 0
          → word mem (a + 2 * k) ≢ 0xFFFF
          → ones_sum (total sent a n) ≢ 0xFFFF)
  unfolding sent
  exchanged =
      ones_sum_exchange (total mem a n) (total sent a n) (word mem (a + 2 * k)) c result
        (total-store16 n mem k a (a + 2 * k) c refl i (omega arith) (omega (arith, result)))
        (word-le mem (a + 2 * k) b) (word-le-total n mem k a (a + 2 * k) refl i)

  -- With the checksum field at zero when `checksum` runs, the header that is sent passes the
  -- receiver's test: `checksum` over it is 0.
  pub checksum-store16 :
      word mem (a + 2 * k) ≡ 0 → checksum fuel (store16 mem (a + 2 * k) c) a end ≡ some 0
  unfolding sent
  checksum-store16 z = received.1 (exchanged.0 z)

  -- With a stale word in the checksum field, other than 0 and 0xFFFF, the header that is sent fails
  -- the receiver's test.
  pub checksum-store16_stale :
      word mem (a + 2 * k) ≢ 0
      → word mem (a + 2 * k) ≢ 0xFFFF
      → checksum fuel (store16 mem (a + 2 * k) c) a end ≢ some 0
  unfolding sent
  checksum-store16_stale z z' p = exchanged.1 z z' (received.0 p)
