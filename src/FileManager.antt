-- ===== src/FileManager.antt =====
-- The file manager of two windows, les11_my_mc/src/main.c: the order of the entries, the rows that
-- are drawn, the copy of a file, and the loop over the keys. What the file system answers is an
-- argument; names and paths are lists of bytes. Colours of the windows and the
-- processes of the programs that are run are left out; Progress has the thread of the progress bar.
pub mod Order
pub mod Rows
pub mod Copying
pub mod Progress
mod Examples
use summer_school.Base.{
  ℕ, zero, suc, ◌+◌, ◌-◌, ◌^◌, ◌%◌, Bool, true, false, ◌&&◌, not, Option, none, some, List, [], ◌∷◌,
  ◌++◌, ltb, ◌==◌, if◌then◌else◌, ◌>>=◌, length, get_elem?, take, drop,
}

-- The sign of what a comparison returns.
pub data Sign : Type 0 where
  before same after : Sign

-- `strcmp` on names without their zero bytes.
pub strcmp : List ℕ → List ℕ → Sign
strcmp [] [] = same
strcmp [] (b ∷ y) = before
strcmp (a ∷ x) [] = after
strcmp (a ∷ x) (b ∷ y) = if a == b then strcmp x y else (if ltb a b then before else after)

pub record Dirent : Type 0 where
  pub d_name : List ℕ
  pub is_dir : Bool

-- `goodSort`
pub good_sort : Dirent → Dirent → Sign
good_sort a b =
    if a.is_dir && b.is_dir
    then strcmp a.d_name b.d_name
    else (if a.is_dir then before else (if b.is_dir then after else same))

-- How a row is drawn: as it is, in green, or highlighted.
pub data Look : Type 0 where
  plain green standout : Look

-- A row of a window: a name, with a size unless it is a directory.
pub record Row : Type 0 where
  pub name : List ℕ
  pub size : Option ℕ
  pub look : Look

-- `stat` is the size of the file, 0 if there is none.
pub row : (stat : List ℕ → ℕ) → Look → Look → Dirent → Row
row stat of_dir of_file d =
    if d.is_dir
    then record { name = d.d_name; size = none; look = of_dir }
    else record { name = d.d_name; size = some (stat d.d_name); look = of_file }

-- The rows from the entry `i` on: the `for` loops before and after the selected entry.
pub rows : (stat : List ℕ → ℕ) → List Dirent → (n i : ℕ) → List Row
rows stat dir zero i = []
rows stat dir (suc n) i = elim (get_elem? dir i) [
  | none ↦ []
  | some d ↦ row stat green plain d ∷ rows stat dir n (i + 1)
]

-- `redraw`, with `size` the length of `dir`.
pub redraw : (stat : List ℕ → ℕ) → List Dirent → (selected : ℕ) → List Row
redraw stat dir selected =
    let size = length dir in
    if ltb selected size
    then rows stat dir selected 0 ++ (elim (get_elem? dir selected) [
      | none ↦ []
      | some d ↦ row stat standout standout d ∷ rows stat dir (size - (selected + 1)) (selected + 1)
    ])
    else rows stat dir size 0

-- What a `read` of the loop of `copy` answers: bytes, none at the end of the file, or an error.
pub data Answer : Type 0 where
  bytes : List ℕ → Answer
  failed : Answer

-- The copy as the loop leaves it: its content and the offset of the descriptor. What is added to
-- `progressNow` is in Progress.
pub record Copy : Type 0 where
  pub content : List ℕ
  pub offset : ℕ

-- `write` of `new` at the offset: what lies behind stays.
pub write_at : List ℕ → ℕ → List ℕ → List ℕ
write_at content offset new = take offset content ++ (new ++ drop (offset + length new) content)

-- The loop of `copy` over the answers, each with how many bytes the `write` behind it takes, none when
-- it fails. After an error of `read` it writes -1 bytes, which `write` refuses, and stops. On a file
-- that could not be opened every `read`, or every `write`, fails.
pub copy_loop : List (Answer × ℕ) → Copy → Copy
copy_loop [] c = c
copy_loop ((failed, taken) ∷ answers) c = c
copy_loop ((bytes [], taken) ∷ answers) c = c
copy_loop ((bytes (b ∷ new), taken) ∷ answers) c =
    let part = take taken (b ∷ new) in
    copy_loop answers
      (record { content = write_at c.content c.offset part; offset = c.offset + length part })

-- `copy` onto a file with the content `old`, empty when there was none: it is opened for writing
-- and not cut.
pub copy : List (Answer × ℕ) → (old : List ℕ) → Copy
copy answers old = copy_loop answers (record { content = old; offset = 0 })

pub data Window : Type 0 where
  left right : Window

-- A call of `copy`: the name, where the process stands, and the directory that it copies into.
pub record Copied : Type 0 where
  pub name : List ℕ
  pub from : List ℕ
  pub to : List ℕ

-- The variables of `main`. `cwd` is the directory of the process; `programs` and `copies` are what
-- was run and copied, the last first.
pub record Manager : Type 0 where
  pub left_dir : List Dirent
  pub right_dir : List Dirent
  pub left_path : List ℕ
  pub right_path : List ℕ
  pub selected : ℕ
  pub window : Window
  pub cwd : List ℕ
  pub interrupted : Bool
  pub programs : List (List ℕ)
  pub copies : List Copied

-- The file system at one moment, from the directory of the process: the sorted entries of a path,
-- the absolute path of a name, and the directory after `chdir`, the old one if it fails.
pub record Files : Type 0 where
  pub scandir : (cwd path : List ℕ) → Option (List Dirent)
  pub realpath : (cwd name : List ℕ) → List ℕ
  pub chdir : (cwd path : List ℕ) → List ℕ

pub data Key : Type 0 where
  enter tab down up f5 ctrl_x other : Key

-- "."
abbrev pub dot : List ℕ
dot = b'.' ∷ []

-- `realpath` into one of the two buffers of 250 bytes: the path with its zero byte, or a write behind
-- the buffer.
pub fitting : List ℕ → Option (List ℕ)
fitting p = if ltb (length p) 250 then some p else none

-- `main` before the loop. Each path is the one of the first entry, which may not be ".".
pub start : Files → (cwd : List ℕ) → Option Manager
unfolding fitting
start fs cwd = do
  right_dir ← fs.scandir cwd dot
  left_dir ← fs.scandir cwd dot
  l ← get_elem? left_dir 0
  r ← get_elem? right_dir 0
  left_path ← fitting (fs.realpath cwd l.d_name)
  right_path ← fitting (fs.realpath cwd r.d_name)
  some (record {
    left_dir = left_dir;
    right_dir = right_dir;
    left_path = left_path;
    right_path = right_path;
    selected = 0;
    window = left;
    cwd = cwd;
    interrupted = false;
    programs = [];
    copies = [];
  })

-- The entries of the current window, and its path.
unfoldable pub entries : Window → Manager → List Dirent
entries left m = m.left_dir
entries right m = m.right_dir

unfoldable pub path : Window → Manager → List ℕ
path left m = m.left_path
path right m = m.right_path

-- The `case '\n'` on a directory, into which it goes.
pub enter_dir : Files → Window → Dirent → Manager → Option Manager
unfolding fitting
enter_dir fs left d m = do
  p ← fitting (fs.realpath m.cwd d.d_name)
  let cwd' = fs.chdir m.cwd p
  dir ← fs.scandir cwd' dot
  some (record m { left_path = p; cwd = cwd'; left_dir = dir; selected = 0 })
enter_dir fs right d m = do
  p ← fitting (fs.realpath m.cwd d.d_name)
  let cwd' = fs.chdir m.cwd p
  dir ← fs.scandir cwd' dot
  some (record m { right_path = p; cwd = cwd'; right_dir = dir; selected = 0 })

-- The `case '\t'`.
pub switch_window : Files → Window → Manager → Option Manager
switch_window fs left m = fs.scandir m.cwd m.left_path >>= λ dir.
    some
      (record m { selected = 0; window = right; left_dir = dir; cwd = fs.chdir m.cwd m.right_path })
switch_window fs right m = fs.scandir m.cwd m.right_path >>= λ dir.
    some
      (record m { selected = 0; window = left; right_dir = dir; cwd = fs.chdir m.cwd m.left_path })

-- The `case KEY_F(5)`: `copy` goes into the other directory, and `main` comes back.
pub copy_selected : Files → Window → Dirent → Manager → Option Manager
copy_selected fs left d m =
    let cwd' = fs.chdir (fs.chdir m.cwd m.right_path) m.left_path in
    let c : Copied = record { name = d.d_name; from = m.cwd; to = m.right_path } in
    fs.scandir cwd' m.right_path >>= λ dir.
    some (record m { cwd = cwd'; right_dir = dir; copies = c ∷ m.copies })
copy_selected fs right d m =
    let cwd' = fs.chdir (fs.chdir m.cwd m.left_path) m.right_path in
    let c : Copied = record { name = d.d_name; from = m.cwd; to = m.left_path } in
    fs.scandir cwd' m.left_path >>= λ dir.
    some (record m { cwd = cwd'; left_dir = dir; copies = c ∷ m.copies })

-- One key. `none` is an entry outside the list, the use of the freed entries of a directory that
-- cannot be read, a path that is longer than its buffer, or a copy that does not end, which is that of
-- a directory.
pub press : Files → Key → Manager → Option Manager
press fs enter m = do
  d ← get_elem? (entries m.window m) m.selected
  if d.is_dir
      then enter_dir fs m.window d m
      else some (record m { programs = fs.realpath m.cwd d.d_name ∷ m.programs })
press fs tab m = switch_window fs m.window m
press fs down m =
    if m.selected + 1 == length (entries m.window m)
    then some m
    else some (record m { selected = m.selected + 1 })
press fs up m = if m.selected == 0 then some m else some (record m { selected = m.selected - 1 })
press fs f5 m = do
  d ← get_elem? (entries m.window m) m.selected
  if d.is_dir then none else copy_selected fs m.window d m
press fs ctrl_x m = some (record m { interrupted = true })
press fs other m = some m

-- `while(!isInterrupted)`, over the keys and the file system at each of them.
pub session : List (Files × Key) → Manager → Option Manager
session [] m = some m
session ((fs, k) ∷ keys) m =
    let rest = press fs k m >>= session keys in if m.interrupted then some m else rest
