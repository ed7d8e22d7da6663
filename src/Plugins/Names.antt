-- ===== src/Plugins/Names.antt =====
-- The names between commas: les9_dynamic_libs/src/main.c, lines 29 to 46.
use summer_school.Base.{
  ℕ, suc, ◌+◌, ◌≤◌, ◌<◌, ◌≡◌, ◌≢◌, refl, sym, ap, ◌∙◌, Option, none, some, List, [], ◌∷◌, ◌++◌,
  ◌==◌, ltb, true, false, drop, length, All, arith, get_elem?, length-append, IsText,
}
use mathlib.Core.List.{append_assoc, append-nil}
use summer_school.Shell.Text.{text_of-text, get_elem?-behind}
use summer_school.Shell.Lines.{stored_behind}
use summer_school.Plugins.{Dl, Plugin, Load, is_mark, plugin_of, note_opened, end_name, scan}

-- No mark is in the name.
abbrev pub IsPlain : List ℕ → Type 0
IsPlain = All (λ c. (c ≢ 0) × (c ≢ b',') × (c ≢ 32))

pub IsPlain-IsText : (xs : List ℕ) → IsPlain xs → IsText xs
IsPlain-IsText [] p = tt
IsPlain-IsText (x ∷ xs) p = (p.0.0, IsPlain-IsText xs p.1)

-- A name that `buff` has room for.
abbrev pub IsName : List ℕ → Type 0
IsName name = IsPlain name × (0 < length name) × (length name < 64)

-- Names, each behind a comma.
abbrev pub behind : List (List ℕ) → List ℕ
behind [] = []
behind (name ∷ names) = b',' ∷ (name ++ behind names)

module _ {Handle F : Type 0} (dl : Dl Handle F) where
  abbrev pub found_in : Option Handle → List (Plugin F)
  found_in none = []
  found_in (some h) = plugin_of dl h ∷ []

  abbrev pub missed_in : Option Handle → List ℕ → List (List ℕ)
  missed_in none name = name ∷ []
  missed_in (some h) name = []

  -- The plugins of the names that are found, in their order, and the names that are not.
  abbrev pub found : List (List ℕ) → List (Plugin F)
  found [] = []
  found (name ∷ names) = found_in (dl.dlopen name) ++ found names

  abbrev pub missed : List (List ℕ) → List (List ℕ)
  missed [] = []
  missed (name ∷ names) = missed_in (dl.dlopen name) name ++ missed names

  abbrev pub at : List ℕ → ℕ → ℕ → List (Plugin F) → List (List ℕ) → Load F
  at buff k i ps ms = record { buff = buff; name_length = k; i = i; plugins = ps; missed = ms }

  note_opened-at :
      (o : Option Handle) (name buff : List ℕ) (k i : ℕ) (ps : List (Plugin F)) (ms : List (List ℕ))
      → note_opened dl o name (at buff k i ps ms)
        ≡ at buff k i (ps ++ found_in o) (ms ++ missed_in o name)
  unfolding note_opened
  note_opened-at none name buff k i ps ms =
      ap (λ l. at buff k i l (ms ++ name ∷ [])) (sym (append-nil ps))
  note_opened-at (some h) name buff k i ps ms =
      ap (λ l. at buff k i (ps ++ plugin_of dl h ∷ []) l) (sym (append-nil ms))

  -- The name `front` ends.
  end_name-at :
      (front old : List ℕ) (x k i : ℕ) (ps : List (Plugin F)) (ms : List (List ℕ))
      → IsText front
      → k ≡ length front
      → length ps < 16
      → end_name dl (at (front ++ x ∷ old) k i ps ms)
        ≡ some (
            at
              (front ++ 0 ∷ old)
              0
              i
              (ps ++ found_in (dl.dlopen front))
              (ms ++ missed_in (dl.dlopen front) front))
  unfolding end_name
  end_name-at front old x k i ps ms t e h =
      let stored = stored_behind front old k x 0 e ∙ ap some (append_assoc front (0 ∷ []) old) in
      let fits : ltb (length ps) 16 ≡ true = ground arith in
      rw (stored, text_of-text front old t, fits)
        (ap some (note_opened-at (dl.dlopen front) front (front ++ 0 ∷ old) 0 i ps ms))

  pub scan-copy :
      (xs rest ahead front old : List ℕ) (fuel k i : ℕ) (ps : List (Plugin F)) (ms : List (List ℕ))
      → IsPlain xs
      → i ≡ length ahead
      → k ≡ length front
      → length xs ≤ length old
      → scan dl (length xs + fuel) (ahead ++ (xs ++ rest)) (at (front ++ old) k i ps ms)
        ≡ scan dl fuel
            (ahead ++ (xs ++ rest))
            (at (front ++ (xs ++ drop (length xs) old)) (k + length xs) (i + length xs) ps ms)
  unfolding scan is_mark
  scan-copy [] rest ahead front old fuel k i ps ms p e f h =
      ap (λ n. scan dl n (ahead ++ rest) (at (front ++ old) k i ps ms)) {x = 0 + fuel} {y = fuel}
        (omega arith)
      ∙ ap (λ n. scan dl fuel (ahead ++ rest) (at (front ++ old) n i ps ms)) {x = k} {y = k + 0}
          (omega arith)
      ∙ ap (λ n. scan dl fuel (ahead ++ rest) (at (front ++ old) (k + 0) n ps ms)) {x = i}
          {y = i + 0} (omega arith)
  scan-copy (x ∷ xs) rest ahead front [] fuel k i ps ms p e f h = absurd (omega arith)
  scan-copy (x ∷ xs) rest ahead front (o ∷ old) fuel k i ps ms p e f h =
      let list = ahead ++ x ∷ (xs ++ rest) in
      let read : get_elem? list i ≡ some x =
        get_elem?-behind ahead (x ∷ (xs ++ rest)) i 0 (omega arith) in
      let no_end : (x == 0) ≡ false = ground (arith, p.0) in
      let no_comma : (x == b',') ≡ false = ground (arith, p.0) in
      let no_space : (x == 32) ≡ false = ground (arith, p.0) in
      let next =
        scan-copy xs rest (ahead ++ x ∷ []) (front ++ x ∷ []) old fuel (k + 1) (i + 1) ps ms p.1
          (omega (arith, length-append {0} ahead (x ∷ [])))
          (omega (arith, length-append {0} front (x ∷ []))) (omega arith) in
      let moved = append_assoc ahead (x ∷ []) (xs ++ rest) in
      let d = drop (length xs) old in
      ap (λ n. scan dl n list (at (front ++ o ∷ old) k i ps ms)) {x = suc (length xs) + fuel}
        {y = suc (length xs + fuel)} (omega arith)
      ∙ rw (read, no_end, no_comma, no_space, stored_behind front old k o x f) refl
      ∙ ap (λ l. scan dl (length xs + fuel) l (at ((front ++ x ∷ []) ++ old) (k + 1) (i + 1) ps ms))
          (sym moved)
      ∙ next
      ∙ ap
          (λ l.
            scan dl fuel l
              (at ((front ++ x ∷ []) ++ (xs ++ d)) (k + 1 + length xs) (i + 1 + length xs) ps ms))
          moved
      ∙ ap (λ b. scan dl fuel list (at b (k + 1 + length xs) (i + 1 + length xs) ps ms))
          (append_assoc front (x ∷ []) (xs ++ d))
      ∙ ap (λ n. scan dl fuel list (at (front ++ x ∷ (xs ++ d)) n (i + 1 + length xs) ps ms))
          {x = k + 1 + length xs} {y = k + suc (length xs)} (omega arith)
      ∙ ap (λ n. scan dl fuel list (at (front ++ x ∷ (xs ++ d)) (k + suc (length xs)) n ps ms))
          {x = i + 1 + length xs} {y = i + suc (length xs)} (omega arith)

  -- The mark behind a name: the next round begins with the character behind it in `buff`.
  pub scan_mark :
      (list front old : List ℕ) (x y c fuel k i : ℕ) (r : List ℕ) (ps : List (Plugin F))
      (ms : List (List ℕ))
      → IsText front
      → k ≡ length front
      → length ps < 16
      → get_elem? list i ≡ some b','
      → get_elem? list (i + 1) ≡ some c
      → front ++ 0 ∷ old ≡ y ∷ r
      → scan dl (suc fuel) list (at (front ++ x ∷ old) k i ps ms)
        ≡ scan dl fuel list (
            at
              (c ∷ r)
              1
              (i + 2)
              (ps ++ found_in (dl.dlopen front))
              (ms ++ missed_in (dl.dlopen front) front))
  unfolding scan is_mark
  scan_mark list front old x y c fuel k i r ps ms t e h mark read whole =
      let ps' = ps ++ found_in (dl.dlopen front) in
      let ms' = ms ++ missed_in (dl.dlopen front) front in
      let ends =
        end_name-at front old x k i ps ms t e h ∙ ap (λ b. some (at b 0 i ps' ms')) whole in
      let copied = stored_behind [] r 0 y c refl in
      rw (mark, ends, read, copied)
        (ap (λ n. scan dl fuel list (at (c ∷ r) 1 n ps' ms')) {x = i + 1 + 1} {y = i + 2}
          (omega arith))

  pub scan_end :
      (list front old : List ℕ) (x fuel k i : ℕ) (ps : List (Plugin F)) (ms : List (List ℕ))
      → IsText front
      → k ≡ length front
      → length ps < 16
      → get_elem? list i ≡ some 0
      → scan dl (suc fuel) list (at (front ++ x ∷ old) k i ps ms)
        ≡ some (
            at
              (front ++ 0 ∷ old)
              0
              i
              (ps ++ found_in (dl.dlopen front))
              (ms ++ missed_in (dl.dlopen front) front))
  unfolding scan is_mark
  scan_end list front old x fuel k i ps ms t e h mark =
      rw (mark, end_name-at front old x k i ps ms t e h) refl
