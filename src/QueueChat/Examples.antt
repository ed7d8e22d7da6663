-- ===== src/QueueChat/Examples.antt =====
-- Two clients and a text, on queues that are lists.
use summer_school.Base.{
  ◌≡◌, refl, ap, some-injective, Option, none, some, List, [], ◌∷◌, ◌++◌, arith, map, replicate,
  length, ◌>>=◌, ℕ, store,
}
use summer_school.SharedChat.{quit}
use summer_school.QueueChat.Client.{client, next_text}
use summer_school.QueueChat.Client.Lines.{typed, message_of, client_lem}
use summer_school.QueueChat.Queues.{Queue}
use summer_school.QueueChat.{
  Msgbuf, Move, posts, redirects, takes, writes, hold, World, post, redirect_at, take_at, put_at,
  step, run,
}
use summer_school.QueueChat.Relay.{spread, messages, by, in_hand, ready, relay_lem}

-- The oldest message.
oldest : List Msgbuf → Option (Msgbuf × List Msgbuf)
oldest [] = none
oldest (a ∷ rest) = some (a, rest)

oldest_lem :
    (q : List Msgbuf) (a : Msgbuf) (q' : List Msgbuf) → oldest q ≡ some (a, q') → q ≡ a ∷ q'
unfolding oldest
oldest_lem [] a q' e = absurd (ground arith)
oldest_lem (b ∷ rest) a q' e = ap (λ p. p.0 ∷ p.1) (some-injective (b, rest) (a, q') e)

lists : Queue Msgbuf (List Msgbuf)
lists = record {
  contents = λ q. q;
  msgsnd = λ a q. some (q ++ a ∷ []);
  msgrcv = oldest;
  sends = λ a q q' e. ground arith;
  receives = λ a q q' e. oldest_lem q a q' e;
}

abbrev hi : Msgbuf
hi = record { username = b'A' ∷ b'n' ∷ b'n' ∷ []; mtext = b'H' ∷ b'i' ∷ 10 ∷ [] }

abbrev talk : List Move
talk = posts hi ∷ redirects ∷ redirects ∷ redirects ∷ takes 1 ∷ redirects ∷ takes 2 ∷ writes 2 ∷ []

abbrev talked : World lists
talked = run lists talk (ready lists 2 [] [] [])

relay_lem_example :
    (messages talked.taken ≡ spread 2 talked.posted)
    × (by 2 talked.printed ++ in_hand (talked.held 2) ≡ by 2 talked.taken)
unfolding lists oldest run step post redirect_at take_at put_at
relay_lem_example = relay_lem lists 2 [] [] [] talk 2 refl refl (ground arith) refl refl refl

-- Client 1 still has its message in hand.
talk_prints : (talked.printed ≡ (2, hi) ∷ []) × (talked.held 1 ≡ some hi)
unfolding lists oldest run step post redirect_at take_at put_at hold
talk_prints = (refl, refl)

abbrev two_lines : List (List ℕ)
two_lines = (b'h' ∷ b'i' ∷ []) ∷ [] ∷ []

abbrev ann : List ℕ
ann = b'A' ∷ b'n' ∷ b'n' ∷ []

client_lem_example :
    client (ann ++ 10 ∷ typed two_lines (quit ++ b'x' ∷ [])) (replicate 256 7) (replicate 256 7)
    ≡ some (record { username = ann; mtext = [] }, map (message_of ann) two_lines)
client_lem_example =
    client_lem ann (b'x' ∷ []) (replicate 256 7) (replicate 256 7) two_lines (omega arith)
      (omega arith)
      ((omega arith, omega arith, ground arith), ((omega arith, omega arith, ground arith), tt))
      refl refl

abbrev size_of_text : List ℕ → Option ℕ
unfolding next_text
size_of_text input = next_text input (replicate 256 7) >>= λ r. some (length r.0)

-- Of a line of 254 characters a byte more is posted: the one that the buffer held before.
long_line : size_of_text (replicate 254 b'x' ++ 10 ∷ []) ≡ some 255
unfolding size_of_text store
long_line = refl
