-- ===== src/Shell/Commands.antt =====
-- A line with one command, from the keyboard to `execlp`: les15_pipes/src/interpretator.c.
use summer_school.Base.{
  ℕ, suc, ◌+◌, ◌-◌, ◌≤◌, ◌<◌, ◌≡◌, ◌≢◌, refl, sym, ap, ◌∙◌, subst, some, List, [], ◌∷◌, ◌++◌, ◌==◌,
  ltb, true, false, drop, length, All, arith, store, length-append, store-eq, get_elem?, strlen,
  strlen-text, IsText,
}
use mathlib.Core.List.{append_assoc}
use summer_school.Shell.{
  copy_command, strip, skip_spaces, parse_args, parse_com, text_of, Main, on_bar, split_line,
  commands_of, with_arg, exec_of, recursive_call,
}
use summer_school.Shell.Text.{drop_next, strlen-append, get_elem?-behind, set-behind}
use summer_school.Shell.Words.{skip_spaces-eq}
use summer_school.Shell.Arguments.{IsCommand, ended, parse_args_lem, parse_com_lem}

-- No zero byte, no line feed and no bar.
abbrev pub IsPlain : List ℕ → Type 0
IsPlain = All (λ c. (c ≢ 0) × (c ≢ 10) × (c ≢ b'|'))

IsPlain-IsText : (xs : List ℕ) → IsPlain xs → IsText xs
IsPlain-IsText [] p = tt
IsPlain-IsText (x ∷ xs) p = (p.0.0, IsPlain-IsText xs p.1)

-- The copy, when `front` is copied and `xs` is still to come.
copy_command-append :
    (xs ahead rest front old : List ℕ) (j k : ℕ)
    → j ≡ length ahead
    → k ≡ length front
    → length xs ≤ length old
    → copy_command (length xs) (ahead ++ (xs ++ rest)) j k (front ++ old)
      ≡ some (front ++ (xs ++ drop (length xs) old))
unfolding copy_command
copy_command-append [] ahead rest front old j k e f h = refl
copy_command-append (x ∷ xs) ahead rest front [] j k e f h = absurd (omega arith)
copy_command-append (x ∷ xs) ahead rest front (o ∷ old) j k e f h =
    let read : get_elem? (ahead ++ x ∷ (xs ++ rest)) j ≡ some x =
      get_elem?-behind ahead (x ∷ (xs ++ rest)) j 0 (omega arith) in
    let stored : store (front ++ o ∷ old) k x ≡ some ((front ++ x ∷ []) ++ old) =
      store-eq (front ++ o ∷ old) k x (omega (arith, length-append {0} front (o ∷ old)))
      ∙ ap some (
          set-behind front (o ∷ old) k 0 x (omega arith) ∙ sym (append_assoc front (x ∷ []) old)) in
    let next =
      copy_command-append xs (ahead ++ x ∷ []) rest (front ++ x ∷ []) old (j + 1) (k + 1)
        (omega (arith, length-append {0} ahead (x ∷ [])))
        (omega (arith, length-append {0} front (x ∷ []))) (omega arith) in
    rw (read, stored)
      (ap (λ b. copy_command (length xs) b (j + 1) (k + 1) ((front ++ x ∷ []) ++ old))
          (sym (append_assoc ahead (x ∷ []) (xs ++ rest)))
        ∙ next
        ∙ ap some (append_assoc front (x ∷ []) (xs ++ drop (length xs) old)))

-- No space stands at the end that `strlen` finds.
strip_end : (text rest : List ℕ) → strip (length text) (text ++ 0 ∷ rest) ≡ some (text ++ 0 ∷ rest)
unfolding strip
strip_end [] rest = refl
strip_end (c ∷ text) rest =
    let end : get_elem? (text ++ 0 ∷ rest) (length text) ≡ some 0 =
      get_elem?-behind text (0 ∷ rest) (length text) 0 (omega arith) in
    rw end refl

-- The loop passes the characters of the text.
split_line-pass :
    (xs ahead rest : List ℕ) (fuel n i : ℕ) (m : Main)
    → IsPlain xs
    → i ≡ length ahead
    → i + length xs ≤ n
    → split_line (length xs + fuel) n (ahead ++ (xs ++ rest)) i m
      ≡ split_line fuel n (ahead ++ (xs ++ rest)) (i + length xs) m
unfolding split_line
split_line-pass [] ahead rest fuel n i m p e h =
    ap (λ k. split_line k n (ahead ++ rest) i m) {x = 0 + fuel} {y = fuel} (omega arith)
    ∙ ap (λ k. split_line fuel n (ahead ++ rest) k m) {x = i} {y = i + 0} (omega arith)
split_line-pass (x ∷ xs) ahead rest fuel n i m p e h =
    let read : get_elem? (ahead ++ x ∷ (xs ++ rest)) i ≡ some x =
      get_elem?-behind ahead (x ∷ (xs ++ rest)) i 0 (omega arith) in
    let inside : ltb i n ≡ true = ground arith in
    let no_bar : (x == b'|') ≡ false = ground (arith, p.0) in
    let no_end : (x == 10) ≡ false = ground (arith, p.0) in
    let next =
      split_line-pass xs (ahead ++ x ∷ []) rest fuel n (i + 1) m p.1
        (omega (arith, length-append {0} ahead (x ∷ []))) (omega arith) in
    ap (λ k. split_line k n (ahead ++ x ∷ (xs ++ rest)) i m) {x = suc (length xs) + fuel}
      {y = suc (length xs + fuel)} (omega arith)
    ∙ rw (inside, read, no_bar, no_end)
        (subst
            (λ b.
              split_line (length xs + fuel) n b (i + 1) m
              ≡ split_line fuel n b (i + 1 + length xs) m)
            (append_assoc ahead (x ∷ []) (xs ++ rest)) next
          ∙ ap (λ k. split_line fuel n (ahead ++ x ∷ (xs ++ rest)) k m) {x = i + 1 + length xs}
              {y = i + suc (length xs)} (omega arith))

-- The one command of a line: `command` holds the text when it is parsed.
on_bar-once :
    (text old word program arg parsed : List ℕ) (m : Main) (x : ℕ) (r : List ℕ)
    → IsPlain text
    → m.start ≡ 0
    → length text < length m.command
    → drop (length text) m.command ≡ x ∷ r
    → parse_args (text ++ 0 ∷ r) ≡ some (arg, parsed)
    → parse_com parsed ≡ some word
    → text_of word ≡ some program
    → on_bar (text ++ 10 ∷ 0 ∷ old) (length text) m
      ≡ some (
        length text + 1,
        record m {
          start = length text + 1;
          command = word;
          commands = m.commands ++ program ∷ [];
          args = m.args ++ arg ∷ [];
        },
      )
unfolding on_bar
on_bar-once text old word program arg parsed m x r p s h split found cut named =
    let n = length text in
    let buff = text ++ 10 ∷ 0 ∷ old in
    let copied : copy_command (n - m.start) buff m.start 0 m.command ≡ some (text ++ x ∷ r) =
      ap (λ k. copy_command (n - k) buff k 0 m.command) s
      ∙ ap (λ k. copy_command k buff 0 0 m.command) {x = n - 0} {y = n} (omega arith)
      ∙ copy_command-append text [] (10 ∷ 0 ∷ old) [] m.command 0 0 refl refl (omega arith)
      ∙ ap (λ l. some (text ++ l)) split in
    let ends : store (text ++ x ∷ r) n 0 ≡ some (text ++ 0 ∷ r) =
      store-eq (text ++ x ∷ r) n 0 (omega (arith, length-append {0} text (x ∷ r)))
      ∙ ap some (set-behind text (x ∷ r) n 0 0 (omega arith)) in
    let after : skip_spaces (length buff) buff (n + 1) ≡ some (n + 1) =
      skip_spaces-eq 0 (length buff) buff (n + 1) 0
        (omega (arith, length-append {0} text (10 ∷ 0 ∷ old))) (λ k l. absurd (omega arith))
        (get_elem?-behind text (10 ∷ 0 ∷ old) (n + 1 + 0) 1 (omega arith)) (omega arith)
      ∙ ap some (omega arith) in
    rw
      (
        copied,
        ends,
        after,
        strlen-text text r (IsPlain-IsText text p),
        strip_end text r,
        found,
        cut,
        named,
      )
      refl

-- The end of the line is the last round of the loop but one.
split_line_last :
    (text old : List ℕ) (m m' : Main)
    → on_bar (text ++ 10 ∷ 0 ∷ old) (length text) m ≡ some (length text + 1, m')
    → split_line 2 (length text + 1) (text ++ 10 ∷ 0 ∷ old) (length text) m ≡ some m'
unfolding split_line
split_line_last text old m m' e =
    let n = length text in
    let inside : ltb n (n + 1) ≡ true = ground arith in
    let over : ltb (n + 1 + 1) (n + 1) ≡ false = ground arith in
    let read : get_elem? (text ++ 10 ∷ 0 ∷ old) n ≡ some 10 =
      get_elem?-behind text (10 ∷ 0 ∷ old) n 0 (omega arith) in
    rw (inside, read, e, over) refl

exec_of-first :
    (word args : List ℕ) (c : ℕ)
    → get_elem? args 0 ≡ some c
    → c ≢ 32
    → IsText args
    → exec_of word args ≡ with_arg word args
unfolding exec_of
exec_of-first word [] c e n t = absurd (ground arith)
exec_of-first word (a ∷ args) c e n t = ground (arith, t.0)

module _ (word gap args pad : List ℕ) (v : IsCommand word gap args pad) where
  abbrev pub typed : List ℕ
  typed = word ++ (gap ++ (args ++ pad))

  typed-append : (xs : List ℕ) → typed ++ xs ≡ word ++ (gap ++ (args ++ (pad ++ xs)))
  typed-append xs =
      append_assoc word (gap ++ (args ++ pad)) xs
      ∙ ap (λ l. word ++ l)
          (append_assoc gap (args ++ pad) xs ∙ ap (λ l. gap ++ l) (append_assoc args pad xs))

  -- What a line of one command in the buffer makes of the variables.
  pub commands_of_lem :
      (old junk : List ℕ)
      → IsPlain typed
      → length typed < length junk
      → (m : Main) × (commands_of (typed ++ 10 ∷ 0 ∷ old) junk ≡ some m)
        × (recursive_call m.commands m.args ≡ with_arg word args ∷ [])
  unfolding commands_of recursive_call strlen
  commands_of_lem old junk p h =
      let n = length typed in
      let first : Main = record { start = 0; command = junk; commands = []; args = [] } in
      let (x, r, split) = drop_next n junk h in
      let (cut, left, named) = parse_com_lem word gap args pad r v in
      let found = ap parse_args (typed-append (0 ∷ r)) ∙ parse_args_lem word gap args pad r v in
      let bar =
        on_bar-once typed old cut word args (ended word gap args pad r v) first x r p refl h split
          found left named in
      let long : strlen (typed ++ 10 ∷ 0 ∷ old) ≡ some (n + 1) =
        strlen-append typed (10 ∷ 0 ∷ old) 1 (IsPlain-IsText typed p) refl in
      (
        record { start = n + 1; command = cut; commands = word ∷ []; args = args ∷ [] },
        rw long (
            ap (λ k. split_line k (n + 1) (typed ++ 10 ∷ 0 ∷ old) 0 first) {x = suc (n + 1)}
              {y = n + 2} (omega arith)
            ∙ split_line-pass typed [] (10 ∷ 0 ∷ old) 2 (n + 1) 0 first p refl (omega arith)
            ∙ ap (λ k. split_line 2 (n + 1) (typed ++ 10 ∷ 0 ∷ old) k first) {x = 0 + n} {y = n}
                (omega arith)
            ∙ split_line_last typed old first _ bar),
        ap (λ e. e ∷ []) (exec_of-first word args v.first v.begins v.inked v.is_args),
      )
