-- ===== src/Shell/Rounds.antt =====
-- From the bytes that are typed to `execlp`: les15_pipes/src/interpretator.c.
use summer_school.Base.{
  sym, ℕ, ◌<◌, ◌≡◌, refl, ap, ◌∙◌, some, List, [], ◌∷◌, ◌++◌, false, drop, length, ◌+◌,
}
use mathlib.Core.List.{append_assoc}
use summer_school.Shell.{text_of, with_arg, is_quit, runs, main_round}
use summer_school.Shell.Text.{text_of-text}
use summer_school.Shell.Lines.{IsTyped, IsTyped-IsText, IsTyped-IsLine, my_getline_lem}
use summer_school.Shell.Arguments.{IsCommand}
use summer_school.Shell.Commands.{IsPlain, typed, commands_of_lem}

IsPlain-IsTyped : (xs : List ℕ) → IsPlain xs → IsTyped xs
IsPlain-IsTyped [] p = tt
IsPlain-IsTyped (x ∷ xs) p = ((p.0.0, p.0.1), IsPlain-IsTyped xs p.1)

text_of-line :
    (xs rest : List ℕ) → IsTyped xs → text_of (xs ++ 10 ∷ 0 ∷ rest) ≡ some (xs ++ 10 ∷ [])
text_of-line xs rest t =
    ap text_of (sym (append_assoc xs (10 ∷ []) (0 ∷ rest)))
    ∙ text_of-text (xs ++ 10 ∷ []) rest (IsTyped-IsText xs t)

-- A line of fewer than 255 characters is typed that is one command, not `quit`: its word begins the
-- line, its arguments stand between spaces, and no zero byte and no bar is in it. `buff` has 256 bytes
-- and `command` more than the line, whatever they hold. Then `main` reads the line and no more, and
-- calls `execlp` once, with the word and with the arguments, without the spaces on either side, as one
-- argument.
pub main_round_lem :
    (word gap args pad : List ℕ) (v : IsCommand word gap args pad) (rest junk command : List ℕ)
    → let line = typed word gap args pad v in
      IsPlain line
      → is_quit (line ++ 10 ∷ []) ≡ false
      → length line < 255
      → length line < length command
      → length junk ≡ 256
      → main_round (line ++ 10 ∷ rest) junk command ≡ some (runs (with_arg word args ∷ []) rest)
unfolding main_round
main_round_lem word gap args pad v rest junk command p q short room k =
    let line = typed word gap args pad v in
    let t = IsPlain-IsTyped line p in
    let old = drop (length line + 2) junk in
    let (m, found, called) = commands_of_lem word gap args pad v old command p room in
    rw
      (
        my_getline_lem line rest junk (IsTyped-IsLine line t) short k,
        text_of-line line old t,
        q,
        found,
        called,
      )
      refl
