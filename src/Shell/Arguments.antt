-- ===== src/Shell/Arguments.antt =====
-- A command with arguments, between spaces: `parse_args` and `parse_com` of
-- les15_pipes/src/interpretator.c.
use summer_school.Base.{
  ℕ, zero, suc, ◌+◌, ◌-◌, ◌<◌, ◌≡◌, ◌≢◌, refl, sym, ap, ◌∙◌, some, List, [], ◌∷◌, ◌++◌, ◌>>=◌, drop,
  length, arith, store, length-append, store-eq, set, get_elem?, strlen, IsText,
}
use mathlib.Core.List.{append_assoc, append-nil}
use summer_school.Shell.{
  skip_spaces, find_args, trim, cut_args, parse_args, cut_word, parse_com, text_of,
}
use summer_school.Shell.Text.{
  strlen-append, text_of-append, drop-append, get_elem?-behind, set-behind, get_elem?-All,
}
use summer_school.Shell.Words.{
  IsGap, IsWord, IsWord-IsText, IsGap-IsText, skip_spaces-eq, find_args-eq, trim-eq, cut_word-eq,
}

-- A word, spaces, arguments that neither begin nor end with a space, and spaces.
pub record IsCommand (word gap args pad : List ℕ) : Type 0 where
  pub is_word : IsWord word
  pub is_gap : IsGap gap
  pub is_args : IsText args
  pub is_pad : IsGap pad
  pub wide : 0 < length word
  pub apart : 0 < length gap
  pub first : ℕ
  pub begins : get_elem? args 0 ≡ some first
  pub inked : first ≢ 32
  pub last : ℕ
  pub size : ℕ
  pub ends : get_elem? args size ≡ some last
  pub whole : length args ≡ suc size
  pub inked_last : last ≢ 32

-- A character of a text, whatever stands behind.
get_elem?-front :
    (xs ys : List ℕ) (k c : ℕ) → get_elem? xs k ≡ some c → get_elem? (xs ++ ys) k ≡ some c
get_elem?-front [] ys k c e = absurd (ground arith)
get_elem?-front (x ∷ xs) ys zero c e = e
get_elem?-front (x ∷ xs) ys (suc k) c e = get_elem?-front xs ys k c e

spaced : (gap : List ℕ) → IsGap gap → 0 < length gap → gap ≡ 32 ∷ drop 1 gap
spaced [] g h = absurd (omega arith)
spaced (c ∷ gap) g h = ap (λ x. x ∷ gap) g.0

set_first : (pad old : List ℕ) → set (pad ++ 0 ∷ old) 0 0 ≡ 0 ∷ drop 1 (pad ++ 0 ∷ old)
set_first [] old = refl
set_first (x ∷ pad) old = refl

module _ (word gap args pad old : List ℕ) (v : IsCommand word gap args pad) where
  abbrev tail : List ℕ
  tail = pad ++ 0 ∷ old

  abbrev pub command : List ℕ
  command = word ++ (gap ++ (args ++ tail))

  -- The command when `parse_args` has ended the arguments.
  abbrev pub ended : List ℕ
  ended = word ++ (gap ++ (args ++ 0 ∷ drop 1 tail))

  in_args : (k : ℕ) → get_elem? command (length word + length gap + k) ≡ get_elem? (args ++ tail) k
  in_args k =
      get_elem?-behind word (gap ++ (args ++ tail)) (length word + length gap + k) (length gap + k)
        (omega arith)
      ∙ get_elem?-behind gap (args ++ tail) (length gap + k) k refl

  in_gap : (k : ℕ) → k < length gap → get_elem? command (length word + k) ≡ some 32
  in_gap k h =
      let (c, e, space) = get_elem?-All (λ c. c ≡ 32) gap (args ++ tail) k v.is_gap h in
      get_elem?-behind word (gap ++ (args ++ tail)) (length word + k) k refl ∙ e ∙ ap some space

  in_pad :
      (k : ℕ)
      → k < length pad
      → get_elem? command (length word + length gap + (length args + k)) ≡ some 32
  in_pad k h =
      let (c, e, space) = get_elem?-All (λ c. c ≡ 32) pad (0 ∷ old) k v.is_pad h in
      in_args (length args + k)
      ∙ get_elem?-behind args tail (length args + k) k refl
      ∙ e
      ∙ ap some space

  at_args : get_elem? command (length word + length gap) ≡ some v.first
  at_args =
      ap (get_elem? command) (omega arith)
      ∙ in_args 0
      ∙ get_elem?-front args tail 0 v.first v.begins

  at_last : get_elem? command (length word + length gap + v.size) ≡ some v.last
  at_last = in_args v.size ∙ get_elem?-front args tail v.size v.last v.ends

  strlen-tail : strlen (args ++ tail) ≡ some (length args + length pad)
  unfolding strlen
  strlen-tail =
      strlen-append args tail (length pad) v.is_args
        (strlen-append pad (0 ∷ old) 0 (IsGap-IsText pad v.is_pad) refl ∙ ap some (omega arith))

  long : length word + length gap + length args < length command
  long = omega (
    arith,
    length-append {0} word (gap ++ (args ++ tail)),
    length-append {0} gap (args ++ tail),
    length-append {0} args tail,
    length-append {0} pad (0 ∷ old),
  )

  drop_args : (xs : List ℕ) → drop (length word + length gap) (word ++ (gap ++ xs)) ≡ xs
  drop_args xs =
      ap (λ n. drop n (word ++ (gap ++ xs))) (sym (length-append word gap))
      ∙ ap (drop (length (word ++ gap))) (sym (append_assoc word gap xs))
      ∙ drop-append (word ++ gap) xs

  abbrev pointer : ℕ
  pointer = length word + length gap

  skips_none : skip_spaces (length command) command 0 ≡ some 0
  skips_none =
      let (c, e, ink) =
        get_elem?-All (λ c. (c ≢ 0) × (c ≢ 32)) word (gap ++ (args ++ tail)) 0 v.is_word v.wide in
      skip_spaces-eq 0 (length command) command 0 c (omega (arith, long, v.wide))
        (λ k l. absurd (omega arith)) e ink.1

  skips_gap : skip_spaces (length command) command (length word) ≡ some pointer
  skips_gap =
      skip_spaces-eq (length gap) (length command) command (length word) v.first
        (omega (arith, long, v.wide)) in_gap at_args v.inked

  strlen-command : strlen command ≡ some (length word + (length gap + (length args + length pad)))
  strlen-command =
      strlen-append word (gap ++ (args ++ tail)) (length gap + (length args + length pad))
        (IsWord-IsText word v.is_word)
        (strlen-append gap (args ++ tail) (length args + length pad) (IsGap-IsText gap v.is_gap)
          strlen-tail)

  finds : (left : ℕ) → length word < left → find_args left command 0 ≡ some (some pointer)
  finds left h =
      find_args-eq (length word) left command 0 pointer h
        (λ k l.
          let (c, e, ink) =
            get_elem?-All (λ c. (c ≢ 0) × (c ≢ 32)) word (gap ++ (args ++ tail)) k v.is_word l in
          (c, ap (get_elem? command) (omega arith) ∙ e, ink.0, ink.1))
        (ap (get_elem? command) (omega arith) ∙ in_gap 0 v.apart)
        (ap (skip_spaces (length command) command) {x = 0 + length word} {y = length word}
            (omega arith)
          ∙ skips_gap)

  trims : trim (length args + length pad) pointer command ≡ some (length args)
  trims =
      ap (λ n. trim (n + length pad) pointer command) v.whole
      ∙ trim-eq (length pad) v.size pointer command v.last
          (λ k l. ap (λ n. get_elem? command (pointer + (n + k))) (sym v.whole) ∙ in_pad k l)
          at_last v.inked_last
      ∙ ap some (sym v.whole)

  stores : store command (pointer + length args) 0 ≡ some ended
  stores =
      store-eq command (pointer + length args) 0 long
      ∙ ap some (
          set-behind word (gap ++ (args ++ tail)) (pointer + length args) (length gap + length args)
            0 (omega arith)
          ∙ ap (λ l. word ++ l)
              (set-behind gap (args ++ tail) (length gap + length args) (length args) 0 refl
                ∙ ap (λ l. gap ++ l)
                    (set-behind args tail (length args) 0 0 (omega arith)
                      ∙ ap (λ l. args ++ l) (set_first pad old))))

  copies : text_of (args ++ 0 ∷ drop 1 tail) ≡ some args
  unfolding text_of
  copies = text_of-append args (0 ∷ drop 1 tail) [] v.is_args refl ∙ ap some (append-nil args)

  cuts : cut_args (some pointer) command ≡ some (args, ended)
  unfolding cut_args
  cuts =
      rw
        (
          drop_args (args ++ tail),
          strlen-tail,
          trims,
          stores,
          drop_args (args ++ 0 ∷ drop 1 tail),
          copies,
        )
        refl

  -- `parse_args` finds the arguments, without the spaces on either side.
  pub parse_args_lem : parse_args command ≡ some (args, ended)
  unfolding parse_args
  parse_args_lem =
      let n = length word + (length gap + (length args + length pad)) in
      rw (skips_none, strlen-command, finds (n - 0) (omega (arith, v.apart))) cuts

  strlen-ended : strlen ended ≡ some (length word + (length gap + (length args + 0)))
  unfolding strlen
  strlen-ended =
      strlen-append word (gap ++ (args ++ 0 ∷ drop 1 tail)) (length gap + (length args + 0))
        (IsWord-IsText word v.is_word)
        (strlen-append gap (args ++ 0 ∷ drop 1 tail) (length args + 0) (IsGap-IsText gap v.is_gap)
          (strlen-append args (0 ∷ drop 1 tail) 0 v.is_args refl))

  gap_first : gap ≡ 32 ∷ drop 1 gap
  gap_first = spaced gap v.is_gap v.apart

  -- After it, `parse_com` leaves the word alone.
  pub parse_com_lem : (cut : List ℕ) × (parse_com ended ≡ some cut) × (text_of cut ≡ some word)
  unfolding parse_com text_of
  parse_com_lem =
      let n = length word + (length gap + (length args + 0)) in
      let rest = drop 1 gap ++ (args ++ 0 ∷ drop 1 tail) in
      let same : ended ≡ word ++ 32 ∷ rest =
        ap (λ g. word ++ (g ++ (args ++ 0 ∷ drop 1 tail))) gap_first in
      (
        word ++ 0 ∷ rest,
        ap (λ o. o >>= λ k. cut_word k ended 0) strlen-ended
            ∙ ap (λ b. cut_word n b 0) same
            ∙ cut_word-eq word n 0 [] rest v.is_word (omega (arith, v.apart)) refl,
        text_of-append word (0 ∷ rest) [] (IsWord-IsText word v.is_word) refl
            ∙ ap some (append-nil word),
      )
