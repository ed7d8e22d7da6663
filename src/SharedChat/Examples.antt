-- ===== src/SharedChat/Examples.antt =====
-- Two clients, 3 and 4, on semaphores that behave as `semop` says.
use summer_school.Base.{
  ℕ, ◌+◌, ◌-◌, ◌≡◌, refl, sym, ap, ℕ_discrete, Bool, false, ◌||◌, Option, none, some, List, [], ◌∷◌,
  ◌++◌, ◌==◌, leb, replicate, if◌then◌else◌, put, arith,
}
use summer_school.SharedChat.{
  Sembuf, up, down, wait_zero, Semop, World, start, Move, types, enters, writes, draws, draw, write,
  enter, type_line, server_at, listen, check, raise, same_text, quit, step, run,
}
use summer_school.Shell.{text_of}
use summer_school.SharedChat.Client.{first_line}
use summer_school.SharedChat.Client.Texts.{said, first_line_lem}
use summer_school.SharedChat.Semaphores.{IsSemop}
use summer_school.SharedChat.Counts.{shown, due}
use summer_school.SharedChat.Delivery.{run_lem}
use summer_school.SharedChat.Rounds.{moves, IsRound, round_lem}

-- `old` are the values to which a failed call returns.
done_by : (old : ℕ → ℕ) → List Sembuf → (ℕ → ℕ) → Option (ℕ → ℕ)
done_by old [] v = some v
done_by old (up n k ∷ ops) v =
    let rest = done_by old ops (put v n (v n + k)) in if leb (v n + k) 32767 then rest else some old
done_by old (down n k ∷ ops) v =
    let rest = done_by old ops (put v n (v n - k)) in if leb k (v n) then rest else none
done_by old (wait_zero n ∷ ops) v = let rest = done_by old ops v in if v n == 0 then rest else none

has_outside : List Sembuf → Bool
has_outside [] = false
has_outside (up n k ∷ ops) = leb 12 n || has_outside ops
has_outside (down n k ∷ ops) = leb 12 n || has_outside ops
has_outside (wait_zero n ∷ ops) = leb 12 n || has_outside ops

twelve : Semop
unfolding done_by has_outside
twelve ops v = if has_outside ops then some v else done_by v ops v

twelve-IsSemop : IsSemop twelve
unfolding twelve done_by has_outside
twelve-IsSemop = record {
  raises = λ n v h k. ground arith;
  lowers = λ n v h k. ground arith;
  sleeps = λ n v h k. ground arith;
  outside = λ n v h. ground arith;
  takes = λ n v h k. ground arith;
  queues = λ n v h k. ground arith;
  finds = λ n v h k. (
    put (put v n (v n - 1)) n (put v n (v n - 1) n + 1),
    ground arith,
    λ j. elim (ℕ_discrete n j) [
      | yes here ↦ let same : v j ≡ v n = ap v (sym here) in ground (arith, same)
      | no there ↦ ground arith
    ],
  );
  misses = λ n v h k. ground arith;
}

-- `Ann: ` and `Bob: `.
abbrev nicknames : ℕ → List ℕ
nicknames c =
    if c == 3 then b'A' ∷ b'n' ∷ b'n' ∷ b':' ∷ b' ' ∷ [] else b'B' ∷ b'o' ∷ b'b' ∷ b':' ∷ b' ' ∷ []

-- Client 3 says "Hi", the server passes it on, and both drawers print it.
abbrev talk : List Move
talk =
    types 3 (b'H' ∷ b'i' ∷ 10 ∷ [])
    ∷ enters 3
    ∷ writes 3
    ∷ (moves 13 ++ (draws 3 ∷ draws 4 ∷ draws 3 ∷ draws 4 ∷ []))

abbrev talked : World
talked = run twelve nicknames talk (start [])

talk_ends : talked.sems 1 ≡ 0
unfolding run step twelve done_by has_outside start draw write enter type_line server_at listen
    check raise same_text
talk_ends = refl

run_lem_example :
    (talked.messages ≡ talked.entered) × (due talked 3 + shown 3 talked.screen ≡ talked.entered)
run_lem_example =
    run_lem twelve nicknames twelve-IsSemop [] talk 3 (omega arith) (omega arith) (omega arith)
      (omega arith) talk_ends

talk_prints :
    talked.screen
    ≡ (3, b'A' ∷ b'n' ∷ b'n' ∷ b':' ∷ b' ' ∷ b'H' ∷ b'i' ∷ 10 ∷ [])
      ∷ (4, b'A' ∷ b'n' ∷ b'n' ∷ b':' ∷ b' ' ∷ b'H' ∷ b'i' ∷ 10 ∷ [])
      ∷ []
unfolding run step twelve done_by has_outside start draw write enter type_line server_at listen
    check raise same_text
talk_prints = refl

-- If the server and a drawer are quicker than the reader's `strcpy`, the old text is printed.
abbrev quick : List Move
quick =
    types 3 (b'H' ∷ b'i' ∷ 10 ∷ []) ∷ enters 3 ∷ (moves 13 ++ (draws 3 ∷ draws 3 ∷ writes 3 ∷ []))

quick_prints : (run twelve nicknames quick (start (b'o' ∷ []))).screen ≡ (3, b'o' ∷ []) ∷ []
unfolding run step twelve done_by has_outside start draw write enter type_line server_at listen
    check raise same_text
quick_prints = refl

-- A message is in, and the server has not yet heard of it.
abbrev entered_once : World
unfolding start
entered_once = record (start []) { sems = put (start []).sems 1 1; entered = 1 }

round_lem_example : IsRound 2 entered_once (run twelve nicknames (moves 13) entered_once)
unfolding start same_text
round_lem_example =
    round_lem twelve nicknames twelve-IsSemop entered_once refl refl refl refl (λ i h. ground arith)

abbrev bob : List ℕ
bob = b'B' ∷ b'o' ∷ b'b' ∷ []

abbrev hi : List ℕ
hi = b'h' ∷ b'i' ∷ []

first_line_lem_example :
    (published : List ℕ) × (first_line
        (bob ++ 10 ∷ (hi ++ 10 ∷ []))
        (replicate 512 7)
        (replicate 512 7)
        (replicate 512 0)
      ≡ some (published, same_text (hi ++ 10 ∷ []) quit, []))
    × (text_of published ≡ some (said bob hi))
first_line_lem_example =
    first_line_lem bob hi [] (replicate 512 7) (replicate 512 7) (replicate 512 0) (omega arith)
      (omega arith) (omega arith) (omega arith) refl refl refl
