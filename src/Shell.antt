-- ===== src/Shell.antt =====
-- The command interpreter, les15_pipes/src/interpretator.c: the reading of a line, its split into
-- commands, and the calls that start them. What `malloc` leaves in the buffers is an argument, and
-- `none` is an access outside a buffer or a read of what no input has set.
pub mod Text
pub mod Lines
pub mod Words
pub mod Arguments
pub mod Commands
pub mod Rounds
pub mod Pipes
mod Examples
use summer_school.Base.{
  ℕ, zero, suc, ◌+◌, ◌-◌, Bool, true, false, ◌||◌, ◌&&◌, Option, none, some, List, [], ◌∷◌, ◌++◌,
  ◌==◌, ltb, if◌then◌else◌, get_elem?, get_or, store, ◌>>=◌, strlen, drop, length,
}

-- The loop of `my_getline`, from the index `i` on: the buffer, and the input that is left.
unfoldable pub fill_line : (left i : ℕ) → (input buff : List ℕ) → Option (List ℕ × List ℕ)
fill_line zero i input buff = some (buff, input)
fill_line (suc left) i [] buff = none
fill_line (suc left) i (c ∷ input) buff = do
  filled ← store buff i c
  let done = store filled (i + 1) 0 >>= λ ended. some (ended, input)
  let rest = fill_line left (i + 1) input filled
  if c == 10 then done else rest

pub my_getline : (input junk : List ℕ) → Option (List ℕ × List ℕ)
unfolding fill_line
my_getline input junk = fill_line 255 0 input junk

-- The text of a C string, as `strcpy` copies it.
unfoldable pub text_of : List ℕ → Option (List ℕ)
text_of [] = none
text_of (c ∷ buffer) =
    let rest = text_of buffer >>= λ cs. some (c ∷ cs) in if c == 0 then some [] else rest

-- `while (command[i] == ' ') i++`
pub skip_spaces : (fuel : ℕ) → List ℕ → (i : ℕ) → Option ℕ
skip_spaces zero command i = none
skip_spaces (suc fuel) command i = do
  c ← get_elem? command i
  let rest = skip_spaces fuel command (i + 1)
  if c == 32 then rest else some i

-- The `for` loop of `parse_args`, with the rounds that are left: where `pointer` points, if it is set.
pub find_args : (left : ℕ) → List ℕ → (i : ℕ) → Option (Option ℕ)
unfolding skip_spaces
find_args zero command i = some none
find_args (suc left) command i = do
  c ← get_elem? command i
  let found = skip_spaces (length command) command i >>= λ p. some (some p)
  let rest = find_args left command (i + 1)
  if c == 0 then some none else if c == 32 then found else rest

-- The `while` loop from the end of the arguments: their length without the spaces at the end. The
-- source reads `pointer[-1]` before it sees that `i` is -1; a space stands there.
pub trim : (k p : ℕ) → List ℕ → Option ℕ
trim zero p command = some 0
trim (suc k) p command = do
  c ← get_elem? command (p + k)
  let shorter = trim k p command
  if c == 32 then shorter else some (suc k)

pub cut_args : Option ℕ → List ℕ → Option (List ℕ × List ℕ)
unfolding trim text_of
cut_args none command = some ([], command)
cut_args (some p) command = do
  k ← strlen (drop p command)
  e ← trim k p command
  ended ← store command (p + e) 0
  arg ← text_of (drop p ended)
  some (arg, ended)

-- `parse_args`: the text that `*arg` gets, and the command.
pub parse_args : List ℕ → Option (List ℕ × List ℕ)
unfolding skip_spaces find_args cut_args
parse_args command = do
  i ← skip_spaces (length command) command 0
  n ← strlen command
  pointer ← find_args (n - i) command i
  cut_args pointer command

-- The loop of `parse_com`, with the rounds that are left.
pub cut_word : (left : ℕ) → List ℕ → (i : ℕ) → Option (List ℕ)
cut_word zero command i = some command
cut_word (suc left) command i = do
  c ← get_elem? command i
  let cut = store command i 0
  let rest = cut_word left command (i + 1)
  if c == 32 then cut else rest

pub parse_com : List ℕ → Option (List ℕ)
unfolding cut_word
parse_com command = strlen command >>= λ n. cut_word n command 0

-- `for (j = start; j < i; j++) command[j - start] = buff[j]`, with the rounds that are left.
pub copy_command : (left : ℕ) → (buff : List ℕ) → (j k : ℕ) → List ℕ → Option (List ℕ)
copy_command zero buff j k command = some command
copy_command (suc left) buff j k command = do
  c ← get_elem? buff j
  stored ← store command k c
  copy_command left buff (j + 1) (k + 1) stored

-- `for (j = strlen(command); j > 0; j--)`
pub strip : (j : ℕ) → List ℕ → Option (List ℕ)
strip zero command = some command
strip (suc j) command = do
  c ← get_elem? command (suc j)
  let shorter = store command (suc j) 0 >>= strip j
  if c == 32 then shorter else some command

-- The variables of `main`: the first `count_com` entries of `commands` and `args`.
pub record Main : Type 0 where
  pub start : ℕ
  pub command : List ℕ
  pub commands : List (List ℕ)
  pub args : List (List ℕ)

-- The body of the `if`, at a bar or at the end of the line: the index after it, and the variables.
pub on_bar : (buff : List ℕ) (i : ℕ) → Main → Option (ℕ × Main)
unfolding copy_command skip_spaces strip parse_args parse_com text_of
on_bar buff i m = do
  copy ← copy_command (i - m.start) buff m.start 0 m.command
  ended ← store copy i 0
  next ← skip_spaces (length buff) buff (i + 1)
  n ← strlen ended
  stripped ← strip n ended
  (arg, split) ← parse_args stripped
  word ← parse_com split
  program ← text_of word
  some (
    next,
    record m {
      start = next;
      command = word;
      commands = m.commands ++ program ∷ [];
      args = m.args ++ arg ∷ [];
    },
  )

-- The loop over the line, `n` being `strlen(buff)`.
pub split_line : (fuel n : ℕ) → (buff : List ℕ) (i : ℕ) → Main → Option Main
unfolding on_bar
split_line zero n buff i m = none
split_line (suc fuel) n buff i m = do
  let found = on_bar buff i m >>= λ r. split_line fuel n buff (r.0 + 1) r.1
  let passed = split_line fuel n buff (i + 1) m
  let look = get_elem? buff i >>= λ c. if (c == b'|') || (c == 10) then found else passed
  if ltb i n then look else some m

-- What one line of `main` makes of the buffers before `recursive_call`.
pub commands_of : (buff command : List ℕ) → Option Main
unfolding split_line
commands_of buff command = do
  n ← strlen buff
  split_line (suc n) n buff 0 (record { start = 0; command = command; commands = []; args = [] })

-- The `execlp` calls of `recursive_call`: the program, with the arguments as one.
pub data Exec : Type 0 where
  alone : (program : List ℕ) → Exec
  with_arg : (program arg : List ℕ) → Exec

pub exec_of : (program arg : List ℕ) → Exec
exec_of program arg =
    let c = get_or arg 0 0 in if (c == 32) || (c == 0) then alone program else with_arg program arg

pub recursive_call : (programs args : List (List ℕ)) → List Exec
unfolding exec_of
recursive_call [] args = []
recursive_call (p ∷ programs) [] = exec_of p [] ∷ recursive_call programs []
recursive_call (p ∷ programs) (a ∷ args) = exec_of p a ∷ recursive_call programs args

-- `!strcmp(buff, "quit\n")`, on the text of the buffer.
pub is_quit : List ℕ → Bool
is_quit (a ∷ b ∷ c ∷ d ∷ e ∷ []) =
    (a == b'q') && (b == b'u') && (c == b'i') && (d == b't') && (e == 10)
is_quit _ = false

-- What a round of `main` does: it leaves the loop, or makes these calls and leaves this input.
pub data Round : Type 0 where
  quits : Round
  runs : List Exec → (left : List ℕ) → Round

-- A round of the loop of `main`, from the bytes that are typed on; `junk` is what `malloc` leaves in the
-- line, and `command` what the round before has left.
pub main_round : (input junk command : List ℕ) → Option Round
unfolding my_getline text_of is_quit commands_of recursive_call
main_round input junk command = do
  (buff, left) ← my_getline input junk
  line ← text_of buff
  let called = commands_of buff command >>= λ m. some (runs (recursive_call m.commands m.args) left)
  if is_quit line then some quits else called
