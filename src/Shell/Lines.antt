-- ===== src/Shell/Lines.antt =====
-- Reading a line: `my_getline` of les15_pipes/src/interpretator.c.
use summer_school.Base.{
  ℕ, zero, suc, ◌+◌, ◌≤◌, ◌<◌, ◌≡◌, ◌≢◌, refl, sym, ap, IsText, ◌∙◌, some, List, [], ◌∷◌, ◌++◌,
  ◌==◌, false, drop, length, All, arith, store, length-append, store-eq,
}
use mathlib.Core.List.{append_assoc}
use summer_school.Shell.{fill_line, my_getline}
use summer_school.Shell.Text.{set-behind}

abbrev pub IsLine : List ℕ → Type 0
IsLine = All (λ c. c ≢ 10)

-- A line without zero bytes.
abbrev pub IsTyped : List ℕ → Type 0
IsTyped = All (λ c. (c ≢ 0) × (c ≢ 10))

pub IsTyped-IsText : (xs : List ℕ) → IsTyped xs → IsText (xs ++ 10 ∷ [])
IsTyped-IsText [] p = (omega arith, tt)
IsTyped-IsText (x ∷ xs) p = (p.0.0, IsTyped-IsText xs p.1)

pub IsTyped-IsBare : (xs : List ℕ) → IsTyped xs → IsText xs
IsTyped-IsBare [] p = tt
IsTyped-IsBare (x ∷ xs) p = (p.0.0, IsTyped-IsBare xs p.1)

pub IsTyped-IsLine : (xs : List ℕ) → IsTyped xs → IsLine xs
IsTyped-IsLine [] p = tt
IsTyped-IsLine (x ∷ xs) p = (p.0.1, IsTyped-IsLine xs p.1)

-- A character is stored behind what is read.
pub stored_behind :
    (front old : List ℕ) (i x c : ℕ)
    → i ≡ length front
    → store (front ++ x ∷ old) i c ≡ some ((front ++ c ∷ []) ++ old)
stored_behind front old i x c e =
    store-eq (front ++ x ∷ old) i c (omega (arith, length-append {0} front (x ∷ old)))
    ∙ ap some (set-behind front (x ∷ old) i 0 c (omega arith))
    ∙ ap some (sym (append_assoc front (c ∷ []) old))

fill_line_step :
    (c left i x : ℕ) (input front old : List ℕ)
    → c ≢ 10
    → i ≡ length front
    → fill_line (suc left) i (c ∷ input) (front ++ x ∷ old)
      ≡ fill_line left (i + 1) input ((front ++ c ∷ []) ++ old)
unfolding fill_line
fill_line_step c left i x input front old n e =
    let off : (c == 10) ≡ false = ground arith in rw (stored_behind front old i x c e, off) refl

fill_line_end :
    (left i x y : ℕ) (input front old : List ℕ)
    → i ≡ length front
    → fill_line (suc left) i (10 ∷ input) (front ++ x ∷ y ∷ old)
      ≡ some (front ++ 10 ∷ 0 ∷ old, input)
unfolding fill_line
fill_line_end left i x y input front old e =
    let second =
      stored_behind (front ++ 10 ∷ []) old (i + 1) y 0
        (omega (arith, length-append {0} front (10 ∷ [])))
      ∙ ap some
          (append_assoc (front ++ 10 ∷ []) (0 ∷ []) old ∙ append_assoc front (10 ∷ []) (0 ∷ old)) in
    rw (stored_behind front (y ∷ old) i x 10 e, second) refl

-- The loop, when `front` is read: to the end of the line, or until the rounds are over.
pub fill_line-append :
    (line : List ℕ) (left i : ℕ) (front rest old : List ℕ)
    → IsLine line
    → length line < left
    → i ≡ length front
    → length line + 2 ≤ length old
    → fill_line left i (line ++ 10 ∷ rest) (front ++ old)
      ≡ some (front ++ (line ++ 10 ∷ 0 ∷ drop (length line + 2) old), rest)
fill_line-append line zero i front rest old l h e k = absurd (omega arith)
fill_line-append line (suc left) i front rest [] l h e k = absurd (omega arith)
fill_line-append [] (suc left) i front rest (x ∷ []) l h e k = absurd (omega arith)
fill_line-append [] (suc left) i front rest (x ∷ y ∷ old) l h e k =
    fill_line_end left i x y rest front old e
fill_line-append (c ∷ line) (suc left) i front rest (x ∷ old) l h e k =
    let behind = line ++ 10 ∷ 0 ∷ drop (length line + 2) old in
    let same : drop (length line + 2) old ≡ drop (suc (length line) + 2) (x ∷ old) =
      ap (λ n. drop n (x ∷ old)) {x = suc (length line + 2)} {y = suc (length line) + 2}
        (omega arith) in
    fill_line_step c left i x (line ++ 10 ∷ rest) front old l.0 e
    ∙ fill_line-append line left (i + 1) (front ++ c ∷ []) rest old l.1 (omega arith)
        (omega (arith, length-append {0} front (c ∷ []))) (omega arith)
    ∙ ap (λ b. some (b, rest)) (append_assoc front (c ∷ []) behind)
    ∙ ap (λ d. some (front ++ c ∷ (line ++ 10 ∷ 0 ∷ d), rest)) same

fill_line-full :
    (line : List ℕ) (left i : ℕ) (front rest old : List ℕ)
    → IsLine line
    → length line ≡ left
    → i ≡ length front
    → length line ≤ length old
    → fill_line left i (line ++ rest) (front ++ old)
      ≡ some (front ++ (line ++ drop (length line) old), rest)
unfolding fill_line
fill_line-full [] zero i front rest old l h e k = refl
fill_line-full [] (suc left) i front rest old l h e k = absurd (omega arith)
fill_line-full (c ∷ line) zero i front rest old l h e k = absurd (omega arith)
fill_line-full (c ∷ line) (suc left) i front rest [] l h e k = absurd (omega arith)
fill_line-full (c ∷ line) (suc left) i front rest (x ∷ old) l h e k =
    fill_line_step c left i x (line ++ rest) front old l.0 e
    ∙ fill_line-full line left (i + 1) (front ++ c ∷ []) rest old l.1 (omega arith)
        (omega (arith, length-append {0} front (c ∷ []))) (omega arith)
    ∙ ap (λ b. some (b, rest)) (append_assoc front (c ∷ []) (line ++ drop (length line) old))

-- What has been typed comes back from `my_getline`: a line of fewer than 255 characters with its line
-- feed and a zero byte, and the input behind it is left for the next call.
pub my_getline_lem :
    (line rest junk : List ℕ)
    → IsLine line
    → length line < 255
    → length junk ≡ 256
    → my_getline (line ++ 10 ∷ rest) junk
      ≡ some (line ++ 10 ∷ 0 ∷ drop (length line + 2) junk, rest)
unfolding my_getline
my_getline_lem line rest junk l h k =
    fill_line-append line 255 0 [] rest junk l h refl (omega arith)

-- Of a longer line `my_getline` takes 255 characters and stores no zero byte behind them: the last
-- byte of the buffer is what `malloc` has left there.
pub my_getline_long :
    (line rest junk : List ℕ)
    → IsLine line
    → length line ≡ 255
    → length junk ≡ 256
    → my_getline (line ++ rest) junk ≡ some (line ++ drop 255 junk, rest)
unfolding my_getline
my_getline_long line rest junk l h k =
    fill_line-full line 255 0 [] rest junk l h refl (omega arith)
    ∙ ap (λ n. some (line ++ drop n junk, rest)) h
