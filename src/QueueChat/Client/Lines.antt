-- ===== src/QueueChat/Client/Lines.antt =====
-- What a user types and what is sent: les16_IPC_objects/src/client.c.
use summer_school.Base.{
  ℕ, zero, suc, ◌+◌, ◌-◌, ◌≤◌, ◌<◌, ◌≡◌, ◌≢◌, refl, sym, ap, ◌∙◌, some, List, [], ◌∷◌, ◌++◌, ◌==◌,
  false, true, ltb, drop, length, All, arith, store, length-append, store-eq, strlen, strlen-text,
  length-set, set, map,
}
use mathlib.Core.List.{append_assoc}
use summer_school.Shell.Text.{set-behind, text_of-text, drop_next, length-drop}
use summer_school.Shell.Lines.{
  stored_behind, fill_line-append, IsTyped, IsTyped-IsText, IsTyped-IsBare, IsTyped-IsLine,
}
use summer_school.SharedChat.{quit}
use summer_school.SharedChat.Same.{same_text_ne}
use summer_school.QueueChat.{Msgbuf}
use summer_school.QueueChat.Client.{
  fill_text, next_text, screen_reader, my_getline, user_name, client,
}

-- The loop, when `front` is read.
fill_text-append :
    (line : List ℕ) (left i : ℕ) (front rest old : List ℕ)
    → IsTyped line
    → length line < left
    → i ≡ length front
    → length line < length old
    → fill_text left i (line ++ 10 ∷ rest) (front ++ old)
      ≡ some (i + length line, rest, front ++ (line ++ 10 ∷ drop (suc (length line)) old))
unfolding fill_text
fill_text-append line zero i front rest old l h e k = absurd (omega arith)
fill_text-append line (suc left) i front rest [] l h e k = absurd (omega arith)
fill_text-append [] (suc left) i front rest (x ∷ old) l h e k =
    rw (stored_behind front old i x 10 e, append_assoc front (10 ∷ []) old)
      (ap (λ n. some (n, rest, front ++ 10 ∷ old)) {x = i} {y = i + 0} (omega arith))
fill_text-append (c ∷ line) (suc left) i front rest (x ∷ old) l h e k =
    let inside : (c == 10) ≡ false = ground (arith, l.0) in
    let ended = line ++ 10 ∷ drop (suc (length line)) old in
    rw (stored_behind front old i x c e, inside)
      (fill_text-append line left (i + 1) (front ++ c ∷ []) rest old l.1 (omega arith)
          (omega (arith, length-append {0} front (c ∷ []))) (omega arith)
        ∙ ap (λ b. some (i + 1 + length line, rest, b)) (append_assoc front (c ∷ []) ended)
        ∙ ap (λ n. some (n, rest, front ++ c ∷ ended)) {x = i + 1 + length line}
            {y = i + suc (length line)} (omega arith))

-- A round reads one line and its line feed.
next_text_lem :
    (line rest buff : List ℕ)
    → IsTyped line
    → length line < 254
    → length buff ≡ 256
    → (ended : List ℕ) × (length ended ≡ 256)
      × (next_text (line ++ 10 ∷ rest) buff ≡ some (line ++ 10 ∷ [], rest, ended))
unfolding next_text
next_text_lem line rest buff l h k =
    let (x, r, split) = drop_next (suc (length line)) buff (omega arith) in
    let front = line ++ 10 ∷ [] in
    let filled : fill_text 254 0 (line ++ 10 ∷ rest) buff
        ≡ some (length line, rest, front ++ x ∷ r) =
      fill_text-append line 254 0 [] rest buff l h refl (omega arith)
      ∙ ap (λ d. some (0 + length line, rest, line ++ 10 ∷ d)) split
      ∙ ap (λ b. some (0 + length line, rest, b)) (sym (append_assoc line (10 ∷ []) (x ∷ r)))
      ∙ ap (λ n. some (n, rest, front ++ x ∷ r)) {x = 0 + length line} {y = length line}
          (omega arith) in
    let stored : store (front ++ x ∷ r) (length line + 1) 0 ≡ some (front ++ 0 ∷ r) =
      stored_behind front r (length line + 1) x 0 (omega (arith, length-append {0} line (10 ∷ [])))
      ∙ ap some (append_assoc front (0 ∷ []) r) in
    (
      front ++ 0 ∷ r,
      omega (
        arith,
        ap length split,
        length-drop (suc (length line)) buff (omega arith),
        length-append {0} front (0 ∷ r),
        length-append {0} line (10 ∷ []),
      ),
      rw (filled, stored, text_of-text front r (IsTyped-IsText line l)) refl,
    )

-- The lines with their line feeds, and `rest` behind them.
abbrev pub typed : List (List ℕ) → List ℕ → List ℕ
typed [] rest = rest
typed (line ∷ lines) rest = line ++ 10 ∷ typed lines rest

-- A line that the buffer has room for, and that does not end the client.
abbrev pub IsMessage : List ℕ → Type 0
IsMessage line = IsTyped line × (length line < 254) × ((line ++ 10 ∷ []) ≢ quit)

abbrev pub message_of : (username line : List ℕ) → Msgbuf
message_of username line = record { username = username; mtext = line ++ 10 ∷ [] }

screen_reader-typed :
    (username rest buff : List ℕ) (lines : List (List ℕ)) (fuel : ℕ)
    → All IsMessage lines
    → length lines < fuel
    → length buff ≡ 256
    → screen_reader fuel username (typed lines (quit ++ rest)) buff
      ≡ some (map (message_of username) lines, rest)
unfolding screen_reader
screen_reader-typed username rest buff lines zero v h k = absurd (omega arith)
screen_reader-typed username rest buff [] (suc fuel) v h k =
    let (ended, size, read) =
      next_text_lem (b'q' ∷ b'u' ∷ b'i' ∷ b't' ∷ []) rest buff (omega arith) (omega arith) k in
    let cleared : store ended 0 0 ≡ some (set ended 0 0) = store-eq ended 0 0 (omega arith) in
    rw (read, cleared) refl
screen_reader-typed username rest buff (line ∷ lines) (suc fuel) v h k =
    let (ended, size, read) = next_text_lem line (typed lines (quit ++ rest)) buff v.0.0 v.0.1 k in
    let cleared : store ended 0 0 ≡ some (set ended 0 0) = store-eq ended 0 0 (omega arith) in
    let next =
      screen_reader-typed username rest (set ended 0 0) lines fuel v.1 (omega arith)
        (length-set ended 0 0 ∙ size) in
    rw (read, cleared, same_text_ne (line ++ 10 ∷ []) quit v.0.2, next) refl

length-typed :
    (lines : List (List ℕ)) (rest : List ℕ) → length lines + length rest ≤ length (typed lines rest)
length-typed [] rest = omega arith
length-typed (line ∷ lines) rest =
    omega (arith, length-typed lines rest, length-append {0} line (10 ∷ typed lines rest))

user_name_lem :
    (name rest junk : List ℕ)
    → IsTyped name
    → length name < 32
    → length junk ≡ 256
    → user_name (name ++ 10 ∷ rest) junk ≡ some (name, rest)
unfolding user_name my_getline
user_name_lem name rest junk t h k =
    let d = drop (length name + 2) junk in
    let front = name ++ 10 ∷ [] in
    let read =
      fill_line-append name 255 0 [] rest junk (IsTyped-IsLine name t) (omega arith) refl
        (omega arith) in
    let n = length front in
    let size : n ≡ length name + 1 = length-append {0} name (10 ∷ []) in
    let long : strlen (name ++ 10 ∷ 0 ∷ d) ≡ some n =
      ap strlen (sym (append_assoc name (10 ∷ []) (0 ∷ d)))
      ∙ strlen-text front d (IsTyped-IsText name t) in
    let cut : store (name ++ 10 ∷ 0 ∷ d) (n - 1) 0 ≡ some (name ++ 0 ∷ 0 ∷ d) =
      store-eq (name ++ 10 ∷ 0 ∷ d) (n - 1) 0 (omega (arith, length-append {0} name (10 ∷ 0 ∷ d)))
      ∙ ap some (set-behind name (10 ∷ 0 ∷ d) (n - 1) 0 0 (omega arith)) in
    let fits : ltb (length name) 32 ≡ true = ground arith in
    rw (read, long, cut, text_of-text name (0 ∷ d) (IsTyped-IsBare name t), fits) refl

-- The session of a user, up to the line "quit": the client asks to join once, under the name typed, and
-- posts each line typed behind the name with its line feed, in order and under that name; what is
-- typed behind "quit" is not read. The name has fewer than 32 characters and a line fewer than 254.
pub client_lem :
    (name rest junk buff : List ℕ) (lines : List (List ℕ))
    → IsTyped name
    → length name < 32
    → All IsMessage lines
    → length junk ≡ 256
    → length buff ≡ 256
    → client (name ++ 10 ∷ typed lines (quit ++ rest)) junk buff
      ≡ some (record { username = name; mtext = [] }, map (message_of name) lines)
unfolding client
client_lem name rest junk buff lines t h v k b =
    let left = typed lines (quit ++ rest) in
    rw
      (
        user_name_lem name left junk t h k,
        screen_reader-typed name rest buff lines (length left) v
            (omega (arith, length-typed lines (quit ++ rest))) b,
      )
      refl
