-- ===== src/ThreadErrno/Examples.antt =====
-- Two threads that ask in turn.
use summer_school.Base.{ℕ, ◌≡◌, arith, List, [], ◌∷◌, overwrite, some}
use summer_school.ThreadErrno.{Process, fresh, errno, calls, text}
use summer_school.ThreadErrno.Local.{IsOwned, errno_lem, fresh-IsOwned}

abbrev start : Process
start = fresh (λ a. 0 ∷ 0 ∷ 0 ∷ 0 ∷ 0 ∷ 0 ∷ 0 ∷ 0 ∷ [])

abbrev others : List (ℕ × ℕ)
others = (2, 1) ∷ (2, 4) ∷ []

errno_lem_example :
    ((calls others ((errno 1 3 start).1)).buffers ((errno 1 3 start).0)
      ≡ overwrite (start.buffers ((errno 1 3 start).0)) (text 3))
    × ((calls others ((errno 1 3 start).1)).specific 1 ≡ some ((errno 1 3 start).0))
    × IsOwned (calls others ((errno 1 3 start).1))
errno_lem_example =
    errno_lem 1 3 others start (fresh-IsOwned (λ a. 0 ∷ 0 ∷ 0 ∷ 0 ∷ 0 ∷ 0 ∷ 0 ∷ 0 ∷ []))
      (omega arith, (omega arith, tt))
