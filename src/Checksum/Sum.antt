-- ===== src/Checksum/Sum.antt =====
-- What the loops of `checksum` and `gen_crc16` (les26 to les28, les31) compute.
use summer_school.Base.{
  ℕ, zero, suc, ◌+◌, ◌-◌, ◌*◌, ◌%◌, ◌≤◌, ◌<◌, ◌≡◌, refl, none, some, ◌≢◌, inl, inr, Option-cases,
  List, get_or, get_elem?-eq-get_or, length, ◌==◌, if◌then◌else◌, arith,
}
use native.Mathlib.Nat.{add-zero, add_assoc}
use summer_school.Checksum.{word_at, add_word, sum_words, add_crc, crc_words}

abbrev pub IsBytes : List ℕ → Type 0
IsBytes mem = (i : ℕ) → get_or mem i 0 < 256

-- The word at an address of the memory.
unfoldable pub word : List ℕ → ℕ → ℕ
word mem a = get_or mem a 0 + 256 * get_or mem (a + 1) 0

-- The arithmetic sum of `n` words.
unfoldable pub total : List ℕ → ℕ → ℕ → ℕ
total mem a zero = 0
total mem a (suc n) = word mem a + total mem (a + 2) n

-- The one's complement representative of a sum: its class modulo 0xFFFF, with 0 for 0 alone.
unfoldable pub ones_sum : ℕ → ℕ
ones_sum t = if t == 0 then 0 else (t - 1) % 0xFFFF + 1

pub ones_sum-le : (t : ℕ) → ones_sum t ≤ 0xFFFF
unfolding ones_sum
ones_sum-le t = ground arith

pub word-le : (mem : List ℕ) (a : ℕ) → IsBytes mem → word mem a ≤ 0xFFFF
unfolding word
word-le mem a h = omega (arith, h a, h (a + 1))

word_at-eq : (mem : List ℕ) (a : ℕ) → a + 1 < length mem → word_at mem a ≡ some (word mem a)
unfolding word_at word
word_at-eq mem a h =
    ground (arith, get_elem?-eq-get_or mem a 0 (omega arith), get_elem?-eq-get_or mem (a + 1) 0 h)

add_word-eq : (w t : ℕ) → w ≤ 0xFFFF → add_word (ones_sum t) w ≡ ones_sum (t + w)
unfolding add_word ones_sum
add_word-eq w t h = ground arith

add_crc-eq : (w t : ℕ) → w ≤ 0xFFFF → add_crc (ones_sum t) w ≡ ones_sum (t + w)
unfolding add_crc ones_sum
add_crc-eq w t h = ground arith

-- A loop that runs over `n` words inside the memory adds them up.
pub sum_words-eq :
    (fuel : ℕ) (mem : List ℕ) (a n end t : ℕ)
    → IsBytes mem
    → a + 2 * n ≡ end
    → end ≤ length mem
    → n < fuel
    → sum_words fuel mem a end (ones_sum t) ≡ some (ones_sum (t + total mem a n))
unfolding sum_words total
sum_words-eq zero mem a n end t b e h f = absurd (omega arith)
sum_words-eq (suc fuel) mem a zero end t b e h f = ground (arith, add-zero t)
sum_words-eq (suc fuel) mem a (suc n) end t b e h f = ground (
  arith,
  word_at-eq mem a (omega arith),
  add_word-eq (word mem a) t (word-le mem a b),
  sum_words-eq fuel mem (a + 2) n end (t + word mem a) b (omega arith) h (omega arith),
  add_assoc t (word mem a) (total mem (a + 2) n),
)

pub crc_words-eq :
    (n : ℕ) (mem : List ℕ) (a t : ℕ)
    → IsBytes mem
    → a + 2 * n ≤ length mem
    → crc_words n mem a (ones_sum t) ≡ some (ones_sum (t + total mem a n))
unfolding crc_words total
crc_words-eq zero mem a t b h = ground (arith, add-zero t)
crc_words-eq (suc n) mem a t b h = ground (
  arith,
  word_at-eq mem a (omega arith),
  add_crc-eq (word mem a) t (word-le mem a b),
  crc_words-eq n mem (a + 2) (t + word mem a) b (omega arith),
  add_assoc t (word mem a) (total mem (a + 2) n),
)

-- An end that the step of two bytes misses is never met.
pub sum_words-odd :
    (fuel : ℕ) (mem : List ℕ) (a end r : ℕ) → a % 2 ≢ end % 2 → sum_words fuel mem a end r ≡ none
unfolding sum_words
sum_words-odd zero mem a end r h = refl
sum_words-odd (suc fuel) mem a end r h = elim (Option-cases (word_at mem a)) [
  | inl out ↦ ground arith
  | inr (w, e) ↦ ground (arith, sum_words-odd fuel mem (a + 2) end (add_word r w) (omega arith))
]
