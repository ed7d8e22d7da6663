-- ===== src/Shell/Text.antt =====
-- C strings inside a buffer (les15_pipes/src/interpretator.c).
use summer_school.Base.{
  ℕ, zero, suc, ◌+◌, ◌≤◌, ◌<◌, ◌≡◌, refl, ap, ◌∙◌, some, List, [], ◌∷◌, ◌++◌, get_elem?, strlen,
  drop, length, All, arith, IsText, set, store, store-eq, length-append,
}
use mathlib.Core.List.{append-nil}
use summer_school.Shell.{text_of}

-- The buffers are written as texts, one behind the other.
pub strlen-append :
    (xs ys : List ℕ) (n : ℕ)
    → IsText xs
    → strlen ys ≡ some n
    → strlen (xs ++ ys) ≡ some (length xs + n)
unfolding strlen
strlen-append [] ys n t e = e ∙ ap some (omega arith)
strlen-append (x ∷ xs) ys n t e = ground (arith, t.0, strlen-append xs ys n t.1 e)

pub text_of-append :
    (xs ys zs : List ℕ) → IsText xs → text_of ys ≡ some zs → text_of (xs ++ ys) ≡ some (xs ++ zs)
unfolding text_of
text_of-append [] ys zs t e = e
text_of-append (x ∷ xs) ys zs t e = ground (arith, t.0, text_of-append xs ys zs t.1 e)

pub text_of-text : (xs rest : List ℕ) → IsText xs → text_of (xs ++ 0 ∷ rest) ≡ some xs
unfolding text_of
text_of-text xs rest t = text_of-append xs (0 ∷ rest) [] t refl ∙ ap some (append-nil xs)

pub drop-append : (xs ys : List ℕ) → drop (length xs) (xs ++ ys) ≡ ys
drop-append [] ys = refl
drop-append (x ∷ xs) ys = drop-append xs ys

pub get_elem?-behind :
    (xs ys : List ℕ) (n i : ℕ) → n ≡ length xs + i → get_elem? (xs ++ ys) n ≡ get_elem? ys i
get_elem?-behind [] ys n i e = ap (get_elem? ys) (e ∙ omega arith)
get_elem?-behind (x ∷ xs) ys zero i e = absurd (omega arith)
get_elem?-behind (x ∷ xs) ys (suc n) i e = get_elem?-behind xs ys n i (omega arith)

pub set-behind :
    (xs ys : List ℕ) (n i v : ℕ) → n ≡ length xs + i → set (xs ++ ys) n v ≡ xs ++ set ys i v
set-behind [] ys n i v e = ap (λ k. set ys k v) (e ∙ omega arith)
set-behind (x ∷ xs) ys zero i v e = absurd (omega arith)
set-behind (x ∷ xs) ys (suc n) i v e = ap (λ l. x ∷ l) (set-behind xs ys n i v (omega arith))

pub IsText-append : (xs ys : List ℕ) → IsText xs → IsText ys → IsText (xs ++ ys)
IsText-append [] ys t u = u
IsText-append (x ∷ xs) ys t u = (t.0, IsText-append xs ys t.1 u)

pub store-behind :
    (xs ys : List ℕ) (n i v : ℕ)
    → n ≡ length xs + i
    → i < length ys
    → store (xs ++ ys) n v ≡ some (xs ++ set ys i v)
store-behind xs ys n i v e h =
    store-eq (xs ++ ys) n v (omega (arith, length-append {0} xs ys))
    ∙ ap some (set-behind xs ys n i v e)

pub drop_next :
    (n : ℕ) (xs : List ℕ) → n < length xs → (x : ℕ) × (rest : List ℕ) × (drop n xs ≡ x ∷ rest)
drop_next n [] h = absurd (omega arith)
drop_next zero (x ∷ xs) h = (x, xs, refl)
drop_next (suc n) (x ∷ xs) h = drop_next n xs (omega arith)

pub length-drop : (n : ℕ) (xs : List ℕ) → n ≤ length xs → length xs ≡ n + length (drop n xs)
length-drop zero xs h = omega arith
length-drop (suc n) [] h = absurd (omega arith)
length-drop (suc n) (x ∷ xs) h = omega (arith, length-drop n xs (omega arith))

-- A character of the text in front.
pub get_elem?-All :
    (P : ℕ → Type 0) (xs ys : List ℕ) (k : ℕ)
    → All P xs
    → k < length xs
    → (c : ℕ) × (get_elem? (xs ++ ys) k ≡ some c) × P c
get_elem?-All P [] ys k a h = absurd (omega arith)
get_elem?-All P (x ∷ xs) ys zero a h = (x, refl, a.0)
get_elem?-All P (x ∷ xs) ys (suc k) a h = get_elem?-All P xs ys k a.1 (omega arith)
