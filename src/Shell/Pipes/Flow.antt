-- ===== src/Shell/Pipes/Flow.antt =====
-- What a line prints: les15_pipes/src/interpretator.c, `recursive_call`.
use summer_school.Base.{ℕ, suc, ◌+◌, ◌≡◌, refl, ap, ◌∙◌, List, [], ◌∷◌, put, length, arith, map}
use summer_school.Shell.{Exec}
use summer_school.Shell.Pipes.{
  End, terminal, reads, Table, fork_each, input_of, flow, read_back, piped_call, piped_lines,
}

put_here : (f : ℕ → List ℕ) (i j : ℕ) (text : List ℕ) → i ≡ j → put f i text j ≡ text
put_here f i j text e = ground arith

-- The parent behind the loop.
fork_each_last :
    (e : Exec) (es : List Exec) (pipe : ℕ) (t : Table)
    → (others : List End) × ((fork_each (e ∷ es) pipe t).0.others
        ≡ reads (pipe + length es) ∷ others)
      × ((fork_each (e ∷ es) pipe t).0.stdin ≡ reads (pipe + length es))
unfolding fork_each
fork_each_last e [] pipe t = (
  t.others,
  ap (λ p. reads p ∷ t.others) {x = pipe} {y = pipe + 0} (omega arith),
  ap reads {x = pipe} {y = pipe + 0} (omega arith),
)
fork_each_last e (e' ∷ es) pipe t =
    let parent : Table = record t { stdin = reads pipe; others = reads pipe ∷ t.others } in
    let (others, ends, stdin) = fork_each_last e' es (pipe + 1) parent in
    let same : pipe + 1 + length es ≡ pipe + suc (length es) = omega arith in
    (others, ends ∙ ap (λ p. reads p ∷ others) same, stdin ∙ ap reads same)

module _ (behaves : Exec → List ℕ → List ℕ) where
  -- The programs one behind the other.
  abbrev pub through : List Exec → List ℕ → List ℕ
  through [] text = text
  through (e ∷ es) text = through es (behaves e text)

  module _ (typed : List ℕ) where
    -- What is in the last pipe.
    flow-through :
        (e : Exec) (es : List Exec) (pipe : ℕ) (t : Table) (contents : ℕ → List ℕ)
        → flow behaves typed (fork_each (e ∷ es) pipe t).1 contents (pipe + length es)
          ≡ through (e ∷ es) (input_of behaves typed t.stdin contents)
    unfolding flow fork_each
    flow-through e [] pipe t contents =
        put_here contents pipe (pipe + 0) (behaves e (input_of behaves typed t.stdin contents))
          (omega arith)
    flow-through e (e' ∷ es) pipe t contents =
        let text = behaves e (input_of behaves typed t.stdin contents) in
        let parent : Table = record t { stdin = reads pipe; others = reads pipe ∷ t.others } in
        let next = put contents pipe text in
        ap (flow behaves typed (fork_each (e' ∷ es) (pipe + 1) parent).1 next)
          {x = pipe + suc (length es)} {y = pipe + 1 + length es} (omega arith)
        ∙ flow-through e' es (pipe + 1) parent next
        ∙ ap (through (e' ∷ es)) (put_here contents pipe pipe text refl)

    piped_call-through :
        (e : Exec) (es : List Exec) (pipe : ℕ) (t : Table)
        → ((piped_call behaves typed (e ∷ es) pipe t).0
            ≡ through (e ∷ es) (input_of behaves typed t.stdin (λ q. [])))
          × ((piped_call behaves typed (e ∷ es) pipe t).1.stdin ≡ reads (pipe + length es))
    unfolding piped_call read_back
    piped_call-through e es pipe t =
        let (others, ends, stdin) = fork_each_last e es pipe t in
        let text = flow-through e es pipe t (λ q. []) in (rw ends text, rw ends stdin)

    piped_lines_later :
        (lines : List (List Exec)) (pipe q : ℕ) (t : Table)
        → t.stdin ≡ reads q
        → piped_lines behaves typed lines pipe t ≡ map (λ es. through es []) lines
    unfolding piped_lines
    piped_lines_later [] pipe q t e = refl
    piped_lines_later ([] ∷ lines) pipe q t e =
        ap (λ l. [] ∷ l) (unfold piped_call in piped_lines_later lines (pipe + 0) q t e)
    piped_lines_later ((e ∷ es) ∷ lines) pipe q t h =
        let (text, stdin) = piped_call-through e es pipe t in
        let empty : input_of behaves typed t.stdin (λ q. []) ≡ [] = unfold input_of in rw h refl in
        rw
          (
            text,
            empty,
            piped_lines_later lines (pipe + length (e ∷ es)) (pipe + length es)
                (piped_call behaves typed (e ∷ es) pipe t).1 stdin,
          )
          refl

    -- The first line with a program prints what its programs, one behind the other, make of the input
    -- of the shell. The standard input then is the last pipe, read to its end, so that the first
    -- program of each later line gets nothing.
    pub piped_lines_lem :
        (e : Exec) (es : List Exec) (lines : List (List Exec)) (pipe : ℕ) (t : Table)
        → t.stdin ≡ terminal
        → piped_lines behaves typed ((e ∷ es) ∷ lines) pipe t
          ≡ through (e ∷ es) typed ∷ map (λ es'. through es' []) lines
    unfolding piped_lines
    piped_lines_lem e es lines pipe t h =
        let (text, stdin) = piped_call-through e es pipe t in
        let first : input_of behaves typed t.stdin (λ q. []) ≡ typed =
          unfold input_of in rw h refl in
        rw
          (
            text,
            first,
            piped_lines_later lines (pipe + length (e ∷ es)) (pipe + length es)
                (piped_call behaves typed (e ∷ es) pipe t).1 stdin,
          )
          refl
