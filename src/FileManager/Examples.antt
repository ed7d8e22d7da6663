-- ===== src/FileManager/Examples.antt =====
-- The file manager on a directory with three entries, and the copy of three bytes over five.
use summer_school.Base.{
  ◌>>=◌, none, ℕ, zero, suc, ◌≡◌, ◌≢◌, refl, some-injective, true, false, some, List, [], ◌∷◌, ◌++◌,
  arith, get_elem?,
}
use summer_school.FileManager.{
  before, after, Dirent, good_sort, strcmp, bytes, copy, Files, Key, enter, tab, down, f5, Manager,
  session, press, enter_dir, switch_window, copy_selected, entries, path, fitting, left,
}
use summer_school.FileManager.Order.{flip, good_sort_lem}
use summer_school.FileManager.Copying.{got, copy_lem}
use summer_school.FileManager.Progress.{
  Turn, updates, copies, turns, begin, waiting, resetting, idle, signalling, spinning,
}
use summer_school.FileManager.Progress.Hang.{turns_short}

abbrev here : Dirent
here = record { d_name = b'.' ∷ []; is_dir = true }

abbrev sub : Dirent
sub = record { d_name = b's' ∷ []; is_dir = true }

abbrev file : Dirent
file = record { d_name = b'f' ∷ []; is_dir = false }

abbrev listing : List Dirent
listing = here ∷ sub ∷ file ∷ []

good_sort_lem_example :
    (good_sort sub here ≡ flip (good_sort here sub))
    × (good_sort here sub ≢ after → good_sort sub file ≢ after → good_sort here file ≢ after)
good_sort_lem_example = good_sort_lem here sub file

in_order :
    (a b x y : Dirent)
    → good_sort a b ≡ before
    → some a ≡ some x
    → some b ≡ some y
    → good_sort x y ≢ after
in_order a b x y o e f h =
    let same_first : a ≡ x = some-injective _ _ e in
    let same_second : b ≡ y = some-injective _ _ f in absurd (cc)

listing_sorted :
    (j : ℕ) (x y : Dirent)
    → get_elem? listing j ≡ some x
    → get_elem? listing (suc j) ≡ some y
    → good_sort x y ≢ after
unfolding good_sort strcmp
listing_sorted zero x y e f = in_order here sub x y refl e f
listing_sorted (suc zero) x y e f = in_order sub file x y refl e f
listing_sorted (suc (suc zero)) x y e f = λ h. absurd (cc)
listing_sorted (suc (suc (suc j))) x y e f = λ h. absurd (cc)

-- Of the second block the `write` takes one byte of two.
abbrev reads : List ((ℕ × List ℕ) × ℕ)
reads = ((10, 20 ∷ []), 2) ∷ ((30, 40 ∷ []), 1) ∷ []

copy_lem_example :
    (copy (got reads ++ (bytes [], 0) ∷ []) (1 ∷ 2 ∷ 3 ∷ 4 ∷ 5 ∷ [])).content
    ≡ 10 ∷ 20 ∷ 30 ∷ 4 ∷ 5 ∷ []
copy_lem_example = copy_lem reads 0 [] (1 ∷ 2 ∷ 3 ∷ 4 ∷ 5 ∷ [])

abbrev files : Files
files = record { scandir = λ cwd p. some listing; realpath = λ cwd n. n; chdir = λ cwd p. p }

abbrev opened : Manager
opened = record {
  left_dir = listing;
  right_dir = listing;
  left_path = b's' ∷ [];
  right_path = b'.' ∷ [];
  selected = 2;
  window = left;
  cwd = b's' ∷ [];
  interrupted = false;
  programs = [];
  copies = [];
}

abbrev keys : List (Files × Key)
keys = (files, f5) ∷ (files, tab) ∷ (files, down) ∷ (files, enter) ∷ []

-- A copy, the other window, and the directory below the first entry.
tour : (session keys opened >>= λ m. some m.right_path) ≡ some (b's' ∷ [])
unfolding session press enter_dir switch_window copy_selected entries path fitting
tour = refl

-- The copy of a directory does not end.
stuck : press files f5 (record opened { selected = 1 }) ≡ none
unfolding press entries
stuck = refl

abbrev some_turns : List Turn
some_turns = copies ∷ copies ∷ updates ∷ updates ∷ copies ∷ updates ∷ copies ∷ copies ∷ []

turns_short_example : (turns some_turns (begin 5 (2 ∷ 2 ∷ []))).copier ≢ idle
turns_short_example = turns_short some_turns 5 (2 ∷ 2 ∷ []) (omega arith)

-- A whole file, and the updater back at its wait.
whole_copy :
    turns (some_turns ++ updates ∷ updates ∷ updates ∷ copies ∷ []) (begin 4 (2 ∷ 2 ∷ []))
    ≡ record { updater = waiting; copier = idle; progress_max = 0; progress_now = 0 }
unfolding turns begin
whole_copy = refl

-- A second copy that begins before the updater is back: its signal is lost, and it does not end.
lost_signal :
    turns (copies ∷ copies ∷ copies ∷ updates ∷ updates ∷ updates ∷ copies ∷ []) (record {
      updater = resetting;
      copier = signalling (4 ∷ []);
      progress_max = 4;
      progress_now = 4;
    })
    ≡ record { updater = waiting; copier = spinning; progress_max = 4; progress_now = 0 }
unfolding turns
lost_signal = refl
