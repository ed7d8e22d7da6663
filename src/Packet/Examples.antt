-- ===== src/Packet/Examples.antt =====
-- The packets between 192.168.0.60 and 192.168.0.30.
use summer_school.Base.{
  ℕ, zero, suc, ◌<◌, ◌≡◌, refl, some, List, [], ◌∷◌, ◌++◌, All, length, replicate, arith,
}
use summer_school.Checksum.Sum.{IsBytes}
use summer_school.Packet.Writes.{IsBytes-replicate}
use summer_school.Packet.Header.{IsHeader}
use summer_school.Packet.Ethernet.{IsFrame, frame_lem}
use summer_school.Packet.Syn.{syn, IsSyn, sent_options, syn_lem}
use summer_school.Packet.Raw.{answer, answer_lem}
use summer_school.Packet.{htons}

abbrev ours : ℕ
ours = 0x3C00A8C0

abbrev theirs : ℕ
theirs = 0x1E00A8C0

frame_lem_example : (f : List ℕ) × IsFrame ours theirs f
frame_lem_example = frame_lem ours theirs (omega arith) (omega arith)

syn_lem_example :
    (f : List ℕ) × (syn ours theirs (replicate 52 0) ≡ some f)
    × (length f ≡ 60)
    × IsHeader f 0 60 64 6 ours theirs
    × IsSyn f 20 1333 1555 10 2048 sent_options
syn_lem_example =
    syn_lem ours theirs (replicate 52 0) (omega arith) (omega arith) refl (IsBytes-replicate 52)

-- A datagram from port 1333, then one from port 1555 with the text "Hi".
abbrev other : List ℕ
other = replicate 20 0 ++ (5 ∷ 53 ∷ replicate 8 0)

abbrev head : List ℕ
head = replicate 20 0 ++ (6 ∷ 19 ∷ replicate 6 0)

IsBytes-All : (mem : List ℕ) → All (λ b. b < 256) mem → IsBytes mem
IsBytes-All [] h i = omega arith
IsBytes-All (x ∷ xs) h zero = h.0
IsBytes-All (x ∷ xs) h (suc i) = IsBytes-All xs h.1 i

other-IsBytes : IsBytes other
other-IsBytes = IsBytes-All other (omega arith)

answer_lem_example :
    answer (other ∷ (head ++ (b'H' ∷ b'i' ∷ 0 ∷ [])) ∷ []) (replicate 284 0)
    ≡ some (b'H' ∷ b'i' ∷ 0 ∷ [])
unfolding htons
answer_lem_example =
    answer_lem (other ∷ []) [] head (b'H' ∷ b'i' ∷ []) [] (replicate 284 0)
      ((omega arith, omega arith, other-IsBytes, omega arith), tt) refl (omega arith) refl
      (omega arith) (omega arith) (omega arith) refl refl
