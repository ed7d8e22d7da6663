-- ===== src/Checksum/Agree.antt =====
-- `checksum` (les26 to les28) reads only the words between its two pointers.
use summer_school.Base.{
  ℕ, zero, suc, ◌+◌, ◌*◌, ◌<◌, ◌≡◌, refl, ap, ◌∙◌, true, some, List, get_elem?, ◌>>=◌, arith, ◌==◌,
  if◌then◌else◌, not16,
}
use mathlib.Core.Path.{fun_ext}
use summer_school.Checksum.{checksum, word_at, sum_words, add_word}

word_at-agree :
    (mem mem' : List ℕ) (a : ℕ)
    → get_elem? mem a ≡ get_elem? mem' a
    → get_elem? mem (a + 1) ≡ get_elem? mem' (a + 1)
    → word_at mem a ≡ word_at mem' a
unfolding word_at
word_at-agree mem mem' a e f = rw (e, f) refl

sum_words-agree :
    (fuel : ℕ) (mem mem' : List ℕ) (a n end r : ℕ)
    → a + 2 * n ≡ end
    → ((i : ℕ) → i < end → get_elem? mem i ≡ get_elem? mem' i)
    → sum_words fuel mem a end r ≡ sum_words fuel mem' a end r
unfolding sum_words
sum_words-agree zero mem mem' a n end r e h = refl
sum_words-agree (suc fuel) mem mem' a zero end r e h =
    let last : (a == end) ≡ true = ground arith in rw last refl
sum_words-agree (suc fuel) mem mem' a (suc n) end r e h =
    let same = word_at-agree mem mem' a (h a (omega arith)) (h (a + 1) (omega arith)) in
    let rest =
      λ (w : ℕ). sum_words-agree fuel mem mem' (a + 2) n end (add_word r w) (omega arith) h in
    ap (λ o. if a == end then some r else o)
      (ap (λ o. o >>= λ w. sum_words fuel mem (a + 2) end (add_word r w)) same
        ∙ ap (λ g. word_at mem' a >>= g) (fun_ext rest))

-- Two memories that agree below the end of a run of words have the same checksum over it.
pub checksum-agree :
    (fuel : ℕ) (mem mem' : List ℕ) (a n end : ℕ)
    → a + 2 * n ≡ end
    → ((i : ℕ) → i < end → get_elem? mem i ≡ get_elem? mem' i)
    → checksum fuel mem a end ≡ checksum fuel mem' a end
unfolding checksum
checksum-agree fuel mem mem' a n end e h =
    ap (λ o. o >>= λ result. some (not16 result)) (sum_words-agree fuel mem mem' a n end 0 e h)
