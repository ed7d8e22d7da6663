-- ===== src/Shell/Words.antt =====
-- The word and the arguments of a command: `parse_args` and `parse_com` of
-- les15_pipes/src/interpretator.c.
use summer_school.Base.{
  ℕ, zero, suc, ◌+◌, ◌<◌, ◌≡◌, ◌≢◌, refl, sym, ap, ◌∙◌, some, List, [], ◌∷◌, ◌++◌, ◌==◌, false,
  length, All, arith, store, length-append, store-eq, get_elem?, IsText,
}
use mathlib.Core.List.{append_assoc}
use summer_school.Shell.{skip_spaces, find_args, trim, cut_word}
use summer_school.Shell.Text.{get_elem?-behind, set-behind}

abbrev pub IsGap : List ℕ → Type 0
IsGap = All (λ c. c ≡ 32)

abbrev pub IsWord : List ℕ → Type 0
IsWord = All (λ c. (c ≢ 0) × (c ≢ 32))

pub IsWord-IsText : (xs : List ℕ) → IsWord xs → IsText xs
IsWord-IsText [] w = tt
IsWord-IsText (x ∷ xs) w = (w.0.0, IsWord-IsText xs w.1)

pub IsGap-IsText : (xs : List ℕ) → IsGap xs → IsText xs
IsGap-IsText [] g = tt
IsGap-IsText (x ∷ xs) g = (λ e. absurd (omega (arith, g.0, e)), IsGap-IsText xs g.1)

-- `m` spaces, then another character.
pub skip_spaces-eq :
    (m fuel : ℕ) (b : List ℕ) (i c : ℕ)
    → m < fuel
    → ((k : ℕ) → k < m → get_elem? b (i + k) ≡ some 32)
    → get_elem? b (i + m) ≡ some c
    → c ≢ 32
    → skip_spaces fuel b i ≡ some (i + m)
unfolding skip_spaces
skip_spaces-eq m zero b i c h s e n = absurd (omega arith)
skip_spaces-eq zero (suc fuel) b i c h s e n =
    let here : get_elem? b i ≡ some c = ap (get_elem? b) {y = i + 0} (omega arith) ∙ e in
    let off : (c == 32) ≡ false = ground arith in rw (here, off) (ap some (omega arith))
skip_spaces-eq (suc m) (suc fuel) b i c h s e n =
    let here : get_elem? b i ≡ some 32 =
      ap (get_elem? b) {y = i + 0} (omega arith) ∙ s 0 (omega arith) in
    let next =
      skip_spaces-eq m fuel b (i + 1) c (omega arith)
        (λ k l. ap (get_elem? b) {y = i + suc k} (omega arith) ∙ s (suc k) (omega arith))
        (ap (get_elem? b) {y = i + suc m} (omega arith) ∙ e) n in
    rw here (next ∙ ap some (omega arith))

-- `m` characters of the word, then a space and what `skip_spaces` finds there.
pub find_args-eq :
    (m left : ℕ) (b : List ℕ) (i p : ℕ)
    → m < left
    → ((k : ℕ) → k < m → (c : ℕ) × (get_elem? b (i + k) ≡ some c) × (c ≢ 0) × (c ≢ 32))
    → get_elem? b (i + m) ≡ some 32
    → skip_spaces (length b) b (i + m) ≡ some p
    → find_args left b i ≡ some (some p)
unfolding find_args
find_args-eq m zero b i p h w e s = absurd (omega arith)
find_args-eq zero (suc left) b i p h w e s =
    let here : get_elem? b i ≡ some 32 = ap (get_elem? b) {y = i + 0} (omega arith) ∙ e in
    let found : skip_spaces (length b) b i ≡ some p =
      ap (skip_spaces (length b) b) {y = i + 0} (omega arith) ∙ s in
    rw (here, found) refl
find_args-eq (suc m) (suc left) b i p h w e s =
    let (c, at, full, ink) = w 0 (omega arith) in
    let here : get_elem? b i ≡ some c = ap (get_elem? b) {y = i + 0} (omega arith) ∙ at in
    let some_text : (c == 0) ≡ false = ground arith in
    let no_space : (c == 32) ≡ false = ground arith in
    let next =
      find_args-eq m left b (i + 1) p (omega arith)
        (λ k l.
          let (c', at', full', ink') = w (suc k) (omega arith) in
          (c', ap (get_elem? b) {y = i + suc k} (omega arith) ∙ at', full', ink'))
        (ap (get_elem? b) {y = i + suc m} (omega arith) ∙ e)
        (ap (skip_spaces (length b) b) {y = i + suc m} (omega arith) ∙ s) in
    rw (here, some_text, no_space) next

-- `t` spaces at the end, and another character ahead of them.
pub trim-eq :
    (t e p : ℕ) (b : List ℕ) (c : ℕ)
    → ((k : ℕ) → k < t → get_elem? b (p + (suc e + k)) ≡ some 32)
    → get_elem? b (p + e) ≡ some c
    → c ≢ 32
    → trim (suc e + t) p b ≡ some (suc e)
unfolding trim
trim-eq zero e p b c s h n =
    let off : (c == 32) ≡ false = ground arith in
    ap (λ k. trim k p b) {y = suc e} (omega arith) ∙ rw (h, off) refl
trim-eq (suc t) e p b c s h n =
    ap (λ k. trim k p b) {y = suc (suc e + t)} (omega arith)
    ∙ rw (s t (omega arith)) (trim-eq t e p b c (λ k l. s k (omega arith)) h n)

-- The loop of `parse_com` behind a part of the word.
pub cut_word-eq :
    (word : List ℕ) (left i : ℕ) (front rest : List ℕ)
    → IsWord word
    → length word < left
    → i ≡ length front
    → cut_word left (front ++ (word ++ 32 ∷ rest)) i ≡ some (front ++ (word ++ 0 ∷ rest))
unfolding cut_word
cut_word-eq word zero i front rest w h e = absurd (omega arith)
cut_word-eq [] (suc left) i front rest w h e =
    let here : get_elem? (front ++ 32 ∷ rest) i ≡ some 32 =
      get_elem?-behind front (32 ∷ rest) i 0 (omega arith) in
    let cut : store (front ++ 32 ∷ rest) i 0 ≡ some (front ++ 0 ∷ rest) =
      store-eq (front ++ 32 ∷ rest) i 0 (omega (arith, length-append {0} front (32 ∷ rest)))
      ∙ ap some (set-behind front (32 ∷ rest) i 0 0 (omega arith)) in
    rw (here, cut) refl
cut_word-eq (c ∷ word) (suc left) i front rest w h e =
    let here : get_elem? (front ++ c ∷ (word ++ 32 ∷ rest)) i ≡ some c =
      get_elem?-behind front (c ∷ (word ++ 32 ∷ rest)) i 0 (omega arith) in
    let off : (c == 32) ≡ false = ground (arith, w.0.1) in
    rw (here, off)
      (ap (λ b. cut_word left b (i + 1)) (sym (append_assoc front (c ∷ []) (word ++ 32 ∷ rest)))
        ∙ cut_word-eq word left (i + 1) (front ++ c ∷ []) rest w.1 (omega arith)
            (omega (arith, length-append {0} front (c ∷ [])))
        ∙ ap some (append_assoc front (c ∷ []) (word ++ 0 ∷ rest)))
