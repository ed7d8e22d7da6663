-- ===== src/SharedChat/Same.antt =====
-- `!strcmp` decides whether two texts are the same (les17_shared_memory/src/server.c).
use summer_school.Base.{ℕ, ◌≡◌, ◌≢◌, refl, List, [], ◌∷◌, true, false, Bool-cases, inl, inr, arith}
use summer_school.SharedChat.{same_text}

same_text→eq : (xs ys : List ℕ) → same_text xs ys ≡ true → xs ≡ ys
unfolding same_text
same_text→eq [] [] e = refl
same_text→eq [] (y ∷ ys) e = absurd (ground arith)
same_text→eq (x ∷ xs) [] e = absurd (ground arith)
same_text→eq (x ∷ xs) (y ∷ ys) e = ground (arith, same_text→eq xs ys)

pub same_text_ne : (xs ys : List ℕ) → xs ≢ ys → same_text xs ys ≡ false
same_text_ne xs ys n = elim (Bool-cases (same_text xs ys)) [
  | inl same ↦ absurd (n (same_text→eq xs ys same))
  | inr other ↦ other
]
