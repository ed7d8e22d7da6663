-- ===== src/Packet/Strings.antt =====
-- The strings that the packets hold (les25 to les28).
use summer_school.Base.{
  ℕ, zero, suc, ◌+◌, ◌≤◌, ◌<◌, ◌≡◌, refl, sym, ap, ◌∙◌, some, List, [], ◌∷◌, ◌++◌, get_or, length,
  length-append, drop, arith, ◌==◌, false, overwrite, get_elem?-append, IsText,
}
use mathlib.Core.List.{append_assoc}
use summer_school.Packet.{string_at}

-- `recvfrom` stores what arrives over the first bytes.
pub overwrite-append : (m d : List ℕ) → length d ≤ length m → overwrite m d ≡ d ++ drop (length d) m
unfolding overwrite
overwrite-append [] [] h = refl
overwrite-append [] (x ∷ d) h = absurd (omega arith)
overwrite-append (c ∷ m) [] h = refl
overwrite-append (c ∷ m) (x ∷ d) h = ap (λ l. x ∷ l) (overwrite-append m d (omega arith))

pub get_or-overwrite :
    (m d : List ℕ) (i : ℕ)
    → i < length d
    → length d ≤ length m
    → get_or (overwrite m d) i 0 ≡ get_or d i 0
unfolding overwrite
get_or-overwrite [] d i h k = absurd (omega arith)
get_or-overwrite (c ∷ m) [] i h k = absurd (omega arith)
get_or-overwrite (c ∷ m) (x ∷ d) zero h k = refl
get_or-overwrite (c ∷ m) (x ∷ d) (suc i) h k = get_or-overwrite m d i (omega arith) (omega arith)

-- A text with its zero byte is read whole.
pub string_at-text :
    (fuel : ℕ) (front text rest : List ℕ)
    → IsText text
    → length text < fuel
    → string_at fuel (front ++ (text ++ 0 ∷ rest)) (length front) ≡ some (text ++ 0 ∷ [])
unfolding string_at
string_at-text zero front text rest t h = absurd (omega arith)
string_at-text (suc fuel) front [] rest t h = rw (get_elem?-append front rest 0) refl
string_at-text (suc fuel) front (c ∷ text) rest t h =
    let off : (c == 0) ≡ false = ground (arith, t.0) in
    let next =
      ap (λ m. string_at fuel m (length front + 1))
        (sym (append_assoc front (c ∷ []) (text ++ 0 ∷ rest)))
      ∙ ap (λ k. string_at fuel ((front ++ c ∷ []) ++ (text ++ 0 ∷ rest)) k)
          (sym (length-append front (c ∷ [])))
      ∙ string_at-text fuel (front ++ c ∷ []) text rest t.1 (omega arith) in
    rw (get_elem?-append front (text ++ 0 ∷ rest) c, off, next) refl
