-- ===== src/SharedChat/Counts.antt =====
-- What the semaphores of les17_shared_memory count.
use summer_school.Base.{
  ℕ, ◌+◌, ◌≤◌, ◌<◌, ◌≡◌, Bool, true, false, List, [], ◌∷◌, ◌++◌, ◌==◌, ltb, if◌then◌else◌, arith,
}
use summer_school.SharedChat.{Server, listening, raising, World, Move, draws}

-- The server has taken up a message.
abbrev pub held : Server → ℕ
held listening = 0
held _ = 1

-- It has told a client of it.
abbrev pub told : Server → ℕ → ℕ
told (raising j) i = if ltb i j then 1 else 0
told _ i = 0

abbrev pub IsPlace : Server → Type 0
IsPlace (raising j) = 2 ≤ j
IsPlace _ = Unit

abbrev pub pending : Bool → ℕ
pending true = 1
pending false = 0

-- The lines that the drawer of a client has printed.
abbrev pub shown : ℕ → List (ℕ × List ℕ) → ℕ
shown i [] = 0
shown i (line ∷ lines) = (if i == line.0 then 1 else 0) + shown i lines

-- What a client still has to print, and what it has printed.
abbrev pub due : World → ℕ → ℕ
due w i = w.sems i + pending (w.busy i)

-- Semaphore 1 is 0 or 1, and 1 while the server is at work on a message; each message that a reader
-- has got in has been taken up, or semaphore 1 stands for it; and each client has been told once of
-- each message that the server has been through.
pub record IsChat (w : World) : Type 0 where
  pub gate : w.sems 1 ≤ 1
  pub closed : held w.server ≤ w.sems 1
  pub place : IsPlace w.server
  pub accepted : w.entered + held w.server ≡ w.messages + w.sems 1
  pub slots :
      (i : ℕ)
      → 2 ≤ i
      → i < 12
      → due w i + shown i w.screen + held w.server ≡ w.messages + told w.server i

pub shown-append :
    (i c : ℕ) (text : List ℕ) (lines : List (ℕ × List ℕ))
    → shown i (lines ++ (c, text) ∷ []) ≡ shown i lines + (if i == c then 1 else 0)
shown-append i c text [] = omega arith
shown-append i c text (line ∷ lines) = omega (arith, shown-append i c text lines)

-- A drawer has the number of its client, which is 3 or more.
abbrev pub IsMove : Move → Type 0
IsMove (draws c) = 2 ≤ c
IsMove _ = Unit
