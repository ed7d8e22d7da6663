-- ===== src/Reversal/Pieces.antt =====
-- Pieces of lists, for les10_my_nano/src/reverse.c.
use summer_school.Base.{
  ◌++◌, ℕ, zero, suc, ◌+◌, ◌≤◌, ◌≡◌, refl, sym, ap, ◌∙◌, List, [], ◌∷◌, length, take, drop, arith,
  length-append,
}
use mathlib.Core.List.{reverse, reverse-cons}

pub drop-suc : (o : ℕ) (l : List ℕ) → drop (suc o) l ≡ drop 1 (drop o l)
drop-suc zero l = refl
drop-suc (suc o) [] = refl
drop-suc (suc o) (x ∷ l) = drop-suc o l

drop_nil : (n : ℕ) → drop {A = ℕ} n [] ≡ []
drop_nil zero = refl
drop_nil (suc n) = refl

pub drop-add : (a b : ℕ) (l : List ℕ) → drop (a + b) l ≡ drop b (drop a l)
drop-add zero b l = ap (λ n. drop n l) (omega arith)
drop-add (suc a) b [] =
    ap (λ n. drop n []) {x = suc a + b} {y = suc (a + b)} (omega arith) ∙ sym (drop_nil b)
drop-add (suc a) b (x ∷ l) =
    ap (λ n. drop n (x ∷ l)) {x = suc a + b} {y = suc (a + b)} (omega arith) ∙ drop-add a b l

pub length-reverse : (l : List ℕ) → length (reverse l) ≡ length l
length-reverse [] = refl
length-reverse (x ∷ l) =
    ap length (reverse-cons x l)
    ∙ omega (arith, length-append {0} (reverse l) (x ∷ []), length-reverse l)

pub take_nil : (n : ℕ) → take {A = ℕ} n [] ≡ []
take_nil zero = refl
take_nil (suc n) = refl

pub length-take_le : (n : ℕ) (l : List ℕ) → length (take n l) ≤ length l
length-take_le zero l = omega arith
length-take_le (suc n) [] = omega arith
length-take_le (suc n) (x ∷ l) = omega (arith, length-take_le n l)

take-take : (n k : ℕ) (l : List ℕ) → n ≤ k → take n (take k l) ≡ take n l
take-take zero k l h = refl
take-take (suc n) zero l h = absurd (omega arith)
take-take (suc n) (suc k) [] h = refl
take-take (suc n) (suc k) (x ∷ l) h = ap (λ r. x ∷ r) (take-take n k l (omega arith))

pub take-append_take :
    (n k : ℕ) (xs ys : List ℕ) → n ≤ k → take n (xs ++ take k ys) ≡ take n (xs ++ ys)
take-append_take n k [] ys h = take-take n k ys h
take-append_take zero k (x ∷ xs) ys h = refl
take-append_take (suc n) k (x ∷ xs) ys h =
    ap (λ r. x ∷ r) (take-append_take n k xs ys (omega arith))
