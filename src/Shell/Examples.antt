-- ===== src/Shell/Examples.antt =====
-- Lines of the interpreter.
use summer_school.Base.{
  ℕ, ◌≡◌, refl, Option, some, List, [], ◌∷◌, ◌++◌, replicate, length, arith, ◌>>=◌, strlen, store,
}
use summer_school.Shell.{
  main_round, is_quit, runs, quits, commands_of, recursive_call, Exec, alone, with_arg,
}
use summer_school.Shell.Pipes.{Table, terminal, piped_lines}
use summer_school.Shell.Pipes.Flow.{piped_lines_lem}
use summer_school.Shell.Arguments.{IsCommand}
use summer_school.Shell.Rounds.{main_round_lem}

abbrev ls : List ℕ
ls = b'l' ∷ b's' ∷ []

-- `-l /`
abbrev ls_args : List ℕ
ls_args = b'-' ∷ b'l' ∷ 32 ∷ b'/' ∷ []

ls-IsCommand : IsCommand ls (32 ∷ 32 ∷ []) ls_args (32 ∷ [])
ls-IsCommand = record {
  is_word = omega arith;
  is_gap = omega arith;
  is_args = omega arith;
  is_pad = omega arith;
  wide = omega arith;
  apart = omega arith;
  first = b'-';
  begins = refl;
  inked = omega arith;
  last = b'/';
  size = 3;
  ends = refl;
  whole = refl;
  inked_last = omega arith;
}

abbrev ls_line : List ℕ
ls_line = ls ++ (32 ∷ 32 ∷ []) ++ (ls_args ++ (32 ∷ []))

main_round_lem_example :
    main_round (ls_line ++ 10 ∷ b'q' ∷ []) (replicate 256 7) (replicate 512 0)
    ≡ some (runs (with_arg ls ls_args ∷ []) (b'q' ∷ []))
unfolding is_quit
main_round_lem_example =
    main_round_lem ls (32 ∷ 32 ∷ []) ls_args (32 ∷ []) ls-IsCommand (b'q' ∷ []) (replicate 256 7)
      (replicate 512 0) (omega arith) refl (omega arith) (omega arith) refl

quits_round :
    main_round (b'q' ∷ b'u' ∷ b'i' ∷ b't' ∷ 10 ∷ []) (replicate 256 7) (replicate 512 0)
    ≡ some quits
unfolding main_round store
quits_round = refl

-- What the line runs, on a command buffer of zeros.
abbrev calls_of : List ℕ → Option (List Exec)
unfolding commands_of recursive_call
calls_of line = commands_of (line ++ 10 ∷ 0 ∷ []) (replicate 20 0) >>= λ m.
    some (recursive_call m.commands m.args)

-- `ls|cat` runs both; the end of the first command stays behind a shorter second one, so `cat|ls` ends
-- with `lst`; and a space ahead of the first word leaves no program.
two_runs :
    calls_of (ls ++ b'|' ∷ b'c' ∷ b'a' ∷ b't' ∷ [])
    ≡ some (alone ls ∷ alone (b'c' ∷ b'a' ∷ b't' ∷ []) ∷ [])
unfolding calls_of commands_of recursive_call strlen store
two_runs = refl

stale_runs :
    calls_of (b'c' ∷ b'a' ∷ b't' ∷ b'|' ∷ ls)
    ≡ some (alone (b'c' ∷ b'a' ∷ b't' ∷ []) ∷ alone (b'l' ∷ b's' ∷ b't' ∷ []) ∷ [])
unfolding calls_of commands_of recursive_call strlen store
stale_runs = refl

space_runs : calls_of (32 ∷ ls) ≡ some (alone [] ∷ [])
unfolding calls_of commands_of recursive_call strlen store
space_runs = refl

-- A program that counts what it gets, and one that gives it twice.
abbrev behaves : Exec → List ℕ → List ℕ
behaves (alone program) text = length text ∷ []
behaves (with_arg program arg) text = text ++ text

abbrev shell : Table
shell = record { stdin = terminal; stdout = terminal; others = [] }

piped_lines_lem_example :
    piped_lines behaves ls ((with_arg ls ls ∷ alone ls ∷ []) ∷ (alone ls ∷ []) ∷ []) 0 shell
    ≡ (4 ∷ []) ∷ (0 ∷ []) ∷ []
piped_lines_lem_example =
    piped_lines_lem behaves ls (with_arg ls ls) (alone ls ∷ []) ((alone ls ∷ []) ∷ []) 0 shell refl
