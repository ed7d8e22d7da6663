-- ===== src/Shell/Pipes.antt =====
-- The pipes between the programs of a line, les15_pipes/src/interpretator.c, `recursive_call`: what each
-- process holds, and what goes through the pipes. What a program writes for its input is an argument.
pub mod Flow
use summer_school.Base.{ℕ, ◌+◌, List, [], ◌∷◌, put, length}
use summer_school.Shell.{Exec}

-- What a descriptor of a process is: the terminal, or an end of a pipe.
pub data End : Type 0 where
  terminal : End
  reads writes : (pipe : ℕ) → End

-- The descriptors of a process; `others` are those behind the standard ones, the last opened first.
pub record Table : Type 0 where
  pub stdin : End
  pub stdout : End
  pub others : List End

pub record Child : Type 0 where
  pub exec : Exec
  pub table : Table

-- The `for` loop: `pipe` is the number of the next pipe. Each child has the pipe in place of its
-- standard output, and the parent in place of its standard input; the parent keeps `fd[0]`.
pub fork_each : List Exec → (pipe : ℕ) → Table → Table × List Child
fork_each [] pipe t = (t, [])
fork_each (e ∷ es) pipe t =
    let child : Child = record {
      exec = e;
      table = record { stdin = t.stdin; stdout = writes pipe; others = writes pipe ∷ t.others };
    } in
    let parent : Table = record t { stdin = reads pipe; others = reads pipe ∷ t.others } in
    let (last, more) = fork_each es (pipe + 1) parent in (last, child ∷ more)

module _ (behaves : Exec → List ℕ → List ℕ) (typed : List ℕ) where
  -- What an end gives to a reader, for the contents of the pipes.
  pub input_of : End → (ℕ → List ℕ) → List ℕ
  input_of terminal contents = typed
  input_of (reads pipe) contents = contents pipe
  input_of (writes pipe) contents = []

  pub written_to : End → List ℕ → (ℕ → List ℕ) → ℕ → List ℕ
  written_to (writes pipe) text contents = put contents pipe text
  written_to terminal text contents = contents
  written_to (reads pipe) text contents = contents

  -- What is in the pipes when the children have run.
  pub flow : List Child → (ℕ → List ℕ) → ℕ → List ℕ
  unfolding input_of written_to
  flow [] contents = contents
  flow (c ∷ children) contents =
      flow children
        (written_to c.table.stdout (behaves c.exec (input_of c.table.stdin contents)) contents)

  -- The `while` loop over `fd[0]`, which is then closed: what is printed.
  pub read_back : List End → Table → (ℕ → List ℕ) → List ℕ × Table
  unfolding input_of
  read_back [] t contents = ([], t)
  read_back (fd ∷ others) t contents = (input_of fd contents, record t { others = others })

  -- `recursive_call`, when the pipes that are there are read to their ends.
  pub piped_call : List Exec → (pipe : ℕ) → Table → List ℕ × Table
  unfolding fork_each flow read_back
  piped_call [] pipe t = ([], t)
  piped_call (e ∷ es) pipe t =
      let (last, children) = fork_each (e ∷ es) pipe t in
      read_back last.others last (flow children (λ q. []))

  -- The calls for one line behind the other.
  pub piped_lines : List (List Exec) → (pipe : ℕ) → Table → List (List ℕ)
  unfolding piped_call
  piped_lines [] pipe t = []
  piped_lines (es ∷ lines) pipe t =
      let (text, t') = piped_call es pipe t in text ∷ piped_lines lines (pipe + length es) t'
