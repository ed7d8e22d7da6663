-- ===== src/FileManager/Progress.antt =====
-- The two threads of a copy, les11_my_mc/src/main.c: `progressUpdate`, and `drawProgressWindow` with
-- `copy`, as moves in any order. A signal wakes the thread that waits for it, or nobody. What is drawn is
-- left out, and so are the end of the program and the renewal of the condition variable behind a copy.
pub mod Hang
use summer_school.Base.{ℕ, ◌+◌, List, [], ◌∷◌, ltb, if◌then◌else◌}

-- Where `progressUpdate` is: in `pthread_cond_wait`, behind it, at the test of the inner loop, and at
-- the two assignments behind that loop.
pub data Updater : Type 0 where
  waiting woken drawing clearing resetting : Updater

-- Where the main thread is: outside of a copy, before the signal, in the loop of `copy` with the sizes
-- of what is still to be read, in `while (progressMax > 0)`.
pub data Copier : Type 0 where
  idle : Copier
  signalling reading : (chunks : List ℕ) → Copier
  spinning : Copier

pub record Progress : Type 0 where
  pub updater : Updater
  pub copier : Copier
  pub progress_max : ℕ
  pub progress_now : ℕ

pub data Turn : Type 0 where
  updates copies : Turn

pub update_at : Updater → Progress → Progress
update_at waiting p = p
update_at woken p = record p { updater = drawing }
update_at drawing p =
    if ltb p.progress_now p.progress_max then p else record p { updater = clearing }
update_at clearing p = record p { updater = resetting; progress_max = 0 }
update_at resetting p = record p { updater = waiting; progress_now = 0 }

-- `pthread_cond_signal`
pub signalled : Updater → Updater
signalled waiting = woken
signalled u = u

pub copy_at : Copier → Progress → Progress
unfolding signalled
copy_at idle p = p
copy_at (signalling chunks) p = record p { updater = signalled p.updater; copier = reading chunks }
copy_at (reading []) p = record p { copier = spinning }
copy_at (reading (n ∷ chunks)) p = record p {
  progress_now = p.progress_now + n;
  copier = reading chunks;
}
copy_at spinning p = if ltb 0 p.progress_max then p else record p { copier = idle }

pub turn : Turn → Progress → Progress
unfolding update_at copy_at
turn updates p = update_at p.updater p
turn copies p = copy_at p.copier p

unfoldable pub turns : List Turn → Progress → Progress
unfolding turn
turns [] p = p
turns (t ∷ ts) p = turns ts (turn t p)

-- A copy begins, with the other thread in its wait: `progressMax` is the size that `stat` gives.
unfoldable pub begin : (size : ℕ) → (chunks : List ℕ) → Progress
begin size chunks = record {
  updater = waiting;
  copier = signalling chunks;
  progress_max = size;
  progress_now = 0;
}
