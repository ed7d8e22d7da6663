-- ===== src/SharedChat/Client/Texts.antt =====
-- The nickname and a line in the shared memory: les17_shared_memory/src/client.c.
use summer_school.Base.{
  ℕ, ◌+◌, ◌-◌, ◌<◌, ◌≡◌, refl, sym, ap, ◌∙◌, some, List, [], ◌∷◌, ◌++◌, true, ltb, drop, length,
  arith, length-append, strlen, strlen-text, IsText,
}
use mathlib.Core.List.{append_assoc}
use summer_school.Shell.{text_of}
use summer_school.Shell.Text.{text_of-text, drop_next, store-behind, IsText-append}
use summer_school.Shell.Lines.{fill_line-append, IsTyped, IsTyped-IsText, IsTyped-IsLine}
use summer_school.Packet.Strings.{overwrite-append}
use summer_school.SharedChat.{same_text, quit}
use summer_school.SharedChat.Client.{my_getline, nickname_of, publish, is_exit, first_line}

my_getline_typed :
    (line rest junk : List ℕ)
    → IsTyped line
    → length line < 255
    → length junk ≡ 512
    → my_getline (line ++ 10 ∷ rest) junk
      ≡ some (line ++ 10 ∷ 0 ∷ drop (length line + 2) junk, rest)
unfolding my_getline
my_getline_typed line rest junk t h k =
    fill_line-append line 255 0 [] rest junk (IsTyped-IsLine line t) h refl (omega arith)

text_of_line :
    (line d : List ℕ) → IsTyped line → text_of (line ++ 10 ∷ 0 ∷ d) ≡ some (line ++ 10 ∷ [])
text_of_line line d t =
    ap text_of (sym (append_assoc line (10 ∷ []) (0 ∷ d)))
    ∙ text_of-text (line ++ 10 ∷ []) d (IsTyped-IsText line t)

nickname_of_typed :
    (name d : List ℕ) (x : ℕ)
    → IsTyped name
    → nickname_of (name ++ 10 ∷ 0 ∷ x ∷ d) ≡ some (name ++ b':' ∷ 32 ∷ 0 ∷ d)
unfolding nickname_of
nickname_of_typed name d x t =
    let n = length (name ++ 10 ∷ []) in
    let size : n ≡ length name + 1 = length-append {0} name (10 ∷ []) in
    let long : strlen (name ++ 10 ∷ 0 ∷ x ∷ d) ≡ some n =
      ap strlen (sym (append_assoc name (10 ∷ []) (0 ∷ x ∷ d)))
      ∙ strlen-text (name ++ 10 ∷ []) (x ∷ d) (IsTyped-IsText name t) in
    rw
      (
        long,
        store-behind name (10 ∷ 0 ∷ x ∷ d) (n - 1) 0 b':' (omega arith) (omega arith),
        store-behind name (b':' ∷ 0 ∷ x ∷ d) n 1 32 (omega arith) (omega arith),
        store-behind name (b':' ∷ 32 ∷ x ∷ d) (n + 1) 2 0 (omega arith) (omega arith),
      )
      refl

-- The text of a nickname and a line.
abbrev pub said : (name line : List ℕ) → List ℕ
said name line = (name ++ b':' ∷ 32 ∷ []) ++ (line ++ 10 ∷ [])

length-said : (name line : List ℕ) → length (said name line) ≡ length name + length line + 3
length-said name line = omega (
  arith,
  length-append {0} (name ++ b':' ∷ 32 ∷ []) (line ++ 10 ∷ []),
  length-append {0} name (b':' ∷ 32 ∷ []),
  length-append {0} line (10 ∷ []),
)

IsTyped-tagged : (name : List ℕ) → IsTyped name → IsText (name ++ b':' ∷ 32 ∷ [])
IsTyped-tagged [] t = omega arith
IsTyped-tagged (x ∷ name) t = (t.0.0, IsTyped-tagged name t.1)

publish-said :
    (name line d d' public_buff : List ℕ)
    → IsTyped name
    → IsTyped line
    → length name < 255
    → length line < 255
    → length public_buff ≡ 512
    → publish (name ++ b':' ∷ 32 ∷ 0 ∷ d) (line ++ 10 ∷ 0 ∷ d') public_buff
      ≡ some (said name line ++ 0 ∷ drop (length (said name line) + 1) public_buff)
unfolding publish
publish-said name line d d' public_buff t u h k p =
    let tag = name ++ b':' ∷ 32 ∷ [] in
    let text = said name line in
    let size = length-said name line in
    let named : text_of (name ++ b':' ∷ 32 ∷ 0 ∷ d) ≡ some tag =
      ap text_of (sym (append_assoc name (b':' ∷ 32 ∷ []) (0 ∷ d)))
      ∙ text_of-text tag d (IsTyped-tagged name t) in
    let fits : ltb (length text) 1024 ≡ true = ground arith in
    let shared : ltb (length text) (length public_buff) ≡ true = ground arith in
    let whole : length (text ++ 0 ∷ []) ≡ length text + 1 = length-append {0} text (0 ∷ []) in
    rw (named, text_of_line line d' u, fits, shared)
      (ap some (
        overwrite-append public_buff (text ++ 0 ∷ []) (omega arith)
        ∙ append_assoc text (0 ∷ []) (drop (length (text ++ 0 ∷ [])) public_buff)
        ∙ ap (λ n. text ++ 0 ∷ drop n public_buff) whole))

-- A user types a nickname and a line, of fewer than 255 characters each: the shared memory of 512 bytes
-- then holds the nickname, a colon, a space, and the line with its line feed, which is the text that the
-- chat takes; the longest ones just fit. The thread ends behind this line when it is "quit", and the
-- input behind the line is left.
pub first_line_lem :
    (name line rest junk junk' public_buff : List ℕ)
    → IsTyped name
    → IsTyped line
    → length name < 255
    → length line < 255
    → length junk ≡ 512
    → length junk' ≡ 512
    → length public_buff ≡ 512
    → (published : List ℕ) × (first_line (name ++ 10 ∷ (line ++ 10 ∷ rest)) junk junk' public_buff
        ≡ some (published, same_text (line ++ 10 ∷ []) quit, rest))
      × (text_of published ≡ some (said name line))
unfolding first_line
first_line_lem name line rest junk junk' public_buff t u h k p q r =
    let (x, d, split) = drop_next (length name + 2) junk (omega arith) in
    let left = drop (length line + 2) junk' in
    let whole = said name line in
    let behind = drop (length whole + 1) public_buff in
    let read : my_getline (name ++ 10 ∷ (line ++ 10 ∷ rest)) junk
        ≡ some (name ++ 10 ∷ 0 ∷ x ∷ d, line ++ 10 ∷ rest) =
      my_getline_typed name (line ++ 10 ∷ rest) junk t h p
      ∙ ap (λ l. some (name ++ 10 ∷ 0 ∷ l, line ++ 10 ∷ rest)) split in
    let exits : is_exit (line ++ 10 ∷ 0 ∷ left) ≡ some (same_text (line ++ 10 ∷ []) quit) =
      unfold is_exit in rw (text_of_line line left u) refl in
    (
      whole ++ 0 ∷ behind,
      rw
          (
            read,
            nickname_of_typed name d x t,
            my_getline_typed line rest junk' u k q,
            exits,
            publish-said name line d left public_buff t u h k r,
          )
          refl,
      text_of-text whole behind (
          IsText-append (name ++ b':' ∷ 32 ∷ []) (line ++ 10 ∷ []) (IsTyped-tagged name t)
            (IsTyped-IsText line u)),
    )
