-- ===== src/FileManager/Progress/Hang.antt =====
-- A copy that reads less than `stat` has said: les11_my_mc/src/main.c.
use summer_school.Base.{ℕ, ◌+◌, ◌<◌, ◌≡◌, ◌≢◌, refl, ap, subst, List, [], ◌∷◌, ltb, true, arith}
use summer_school.FileManager.Progress.{
  Updater, waiting, woken, drawing, clearing, resetting, Copier, idle, signalling, reading,
  spinning, Progress, Turn, updates, copies, update_at, signalled, copy_at, turn, turns, begin,
}

abbrev pub total : List ℕ → ℕ
total [] = 0
total (n ∷ chunks) = n + total chunks

-- The updater has not left the loop of a copy.
abbrev IsHeld : Updater → Type 0
IsHeld clearing = 0 < 0
IsHeld resetting = 0 < 0
IsHeld u = Unit

-- What is still to be read.
abbrev left : Copier → ℕ
left idle = 0
left (signalling chunks) = total chunks
left (reading chunks) = total chunks
left spinning = 0

abbrev pub IsBusy : Copier → Type 0
IsBusy idle = 0 < 0
IsBusy c = Unit

record IsShort (p : Progress) : Type 0 where
  held : IsHeld p.updater
  busy : IsBusy p.copier
  short : p.progress_now + left p.copier < p.progress_max

update_at-IsShort :
    (u : Updater) (p : Progress) → p.updater ≡ u → IsShort p → IsShort (update_at u p)
unfolding update_at
update_at-IsShort waiting p e v = v
update_at-IsShort woken p e v = record { held = tt; busy = v.busy; short = v.short }
update_at-IsShort drawing p e v =
    let on : ltb p.progress_now p.progress_max ≡ true = let less = v.short in ground arith in
    rw on v
update_at-IsShort clearing p e v = let impossible = subst IsHeld e v.held in absurd (omega arith)
update_at-IsShort resetting p e v = let impossible = subst IsHeld e v.held in absurd (omega arith)

signalled-IsHeld : (u : Updater) → IsHeld u → IsHeld (signalled u)
unfolding signalled
signalled-IsHeld waiting h = tt
signalled-IsHeld woken h = tt
signalled-IsHeld drawing h = tt
signalled-IsHeld clearing h = absurd (omega arith)
signalled-IsHeld resetting h = absurd (omega arith)

copy_at-IsShort : (c : Copier) (p : Progress) → p.copier ≡ c → IsShort p → IsShort (copy_at c p)
unfolding copy_at
copy_at-IsShort idle p e v = let impossible = subst IsBusy e v.busy in absurd (omega arith)
copy_at-IsShort (signalling chunks) p e v =
    let same = ap left e in
    let less = v.short in
    record { held = signalled-IsHeld p.updater v.held; busy = tt; short = omega arith }
copy_at-IsShort (reading []) p e v =
    let same = ap left e in
    let less = v.short in record { held = v.held; busy = tt; short = omega arith }
copy_at-IsShort (reading (n ∷ chunks)) p e v =
    let same = ap left e in
    let less = v.short in record { held = v.held; busy = tt; short = omega arith }
copy_at-IsShort spinning p e v =
    let on : ltb 0 p.progress_max ≡ true = let less = v.short in ground arith in rw on v

turns-IsShort : (ts : List Turn) (p : Progress) → IsShort p → IsShort (turns ts p)
unfolding turns turn
turns-IsShort [] p v = v
turns-IsShort (updates ∷ ts) p v =
    turns-IsShort ts (update_at p.updater p) (update_at-IsShort p.updater p refl v)
turns-IsShort (copies ∷ ts) p v =
    turns-IsShort ts (copy_at p.copier p) (copy_at-IsShort p.copier p refl v)

-- A copy begins when the thread of the bar is in its wait and `progressNow` is 0: if fewer bytes are
-- read than `stat` has said, the copy does not come to its end, whatever turns the two threads take.
pub turns_short :
    (ts : List Turn) (size : ℕ) (chunks : List ℕ)
    → total chunks < size
    → (turns ts (begin size chunks)).copier ≢ idle
turns_short ts size chunks h e =
    let start : IsShort (begin size chunks) =
      unfold begin in record { held = tt; busy = tt; short = omega arith } in
    let end = turns-IsShort ts (begin size chunks) start in
    let impossible = subst IsBusy e end.busy in absurd (omega arith)
