-- ===== src/FileManager/Copying.antt =====
-- The copy of a file (les11_my_mc/src/main.c, `copy`).
use summer_school.Base.{
  ℕ, zero, suc, ◌+◌, ◌≡◌, refl, ◌∙◌, sym, ap, List, [], ◌∷◌, ◌++◌, arith, length, length-append,
  take, drop,
}
use summer_school.FileManager.{Answer, bytes, Copy, copy, copy_loop, write_at}

-- Reads that get at least one byte each, with how many of them each `write` takes, and what is taken
-- together.
abbrev pub got : List ((ℕ × List ℕ) × ℕ) → List (Answer × ℕ)
got [] = []
got (((b, new), taken) ∷ reads) = (bytes (b ∷ new), taken) ∷ got reads

abbrev pub joined : List ((ℕ × List ℕ) × ℕ) → List ℕ
joined [] = []
joined (((b, new), taken) ∷ reads) = take taken (b ∷ new) ++ joined reads

module _ {ℓ} {A : Type ℓ} where
  take-append : (xs ys : List A) → take (length xs) (xs ++ ys) ≡ xs
  take-append [] [] = refl
  take-append [] (y ∷ ys) = refl
  take-append (x ∷ xs) ys = ap (λ r. x ∷ r) (take-append xs ys)

  drop-append : (xs ys : List A) (n : ℕ) → drop (length xs + n) (xs ++ ys) ≡ drop n ys
  drop-append [] ys n = let here : 0 + n ≡ n = omega arith in rw here refl
  drop-append (x ∷ xs) ys n =
      let next : suc (length xs) + n ≡ suc (length xs + n) = omega arith in
      rw next (drop-append xs ys n)

  drop-empty : (n : ℕ) → drop {A = A} n [] ≡ []
  drop-empty zero = refl
  drop-empty (suc n) = refl

  drop-drop : (n m : ℕ) (xs : List A) → drop n (drop m xs) ≡ drop (m + n) xs
  drop-drop n zero xs = let here : 0 + n ≡ n = omega arith in rw here refl
  drop-drop n (suc m) [] =
      let next : suc m + n ≡ suc (m + n) = omega arith in rw next (drop-empty n)
  drop-drop n (suc m) (x ∷ xs) =
      let next : suc m + n ≡ suc (m + n) = omega arith in rw next (drop-drop n m xs)

  append_assoc : (xs ys zs : List A) → (xs ++ ys) ++ zs ≡ xs ++ (ys ++ zs)
  append_assoc [] ys zs = refl
  append_assoc (x ∷ xs) ys zs = ap (λ r. x ∷ r) (append_assoc xs ys zs)

-- A write behind what is done, over the rest of the old content.
write_at-append :
    (done new old : List ℕ)
    → write_at (done ++ drop (length done) old) (length done) new
      ≡ (done ++ new) ++ drop (length (done ++ new)) old
unfolding write_at
write_at-append done new old =
    rw
      (
        take-append done (drop (length done) old),
        drop-append done (drop (length done) old) (length new),
        drop-drop (length new) (length done) old,
        append_assoc done new (drop (length (done ++ new)) old),
        length-append {0} done new,
      )
      refl

-- The copy when `done` is written over the start of `old`.
abbrev standing : (done old : List ℕ) → Copy
standing done old = record { content = done ++ drop (length done) old; offset = length done }

append_nil : (xs : List ℕ) → xs ++ [] ≡ xs
append_nil [] = refl
append_nil (x ∷ xs) = ap (λ r. x ∷ r) (append_nil xs)

copy_loop-got :
    (reads : List ((ℕ × List ℕ) × ℕ)) (k : ℕ) (rest : List (Answer × ℕ)) (done old : List ℕ)
    → copy_loop (got reads ++ (bytes [], k) ∷ rest) (standing done old)
      ≡ standing (done ++ joined reads) old
unfolding copy_loop
copy_loop-got [] k rest done old = rw (append_nil done) refl
copy_loop-got (((b, new), taken) ∷ reads) k rest done old =
    let part = take taken (b ∷ new) in
    ap (copy_loop (got reads ++ (bytes [], k) ∷ rest)) (λ i. record {
      content = write_at-append done part old i;
      offset = sym (length-append {0} done part) i;
    })
    ∙ copy_loop-got reads k rest (done ++ part) old
    ∙ ap (λ d. standing d old) (append_assoc done part (joined reads))

-- When every `read` up to the end of the file succeeds, the copy begins with what each `write` has
-- taken of its block, in order, and keeps what an old file of that name had behind it.
pub copy_lem :
    (reads : List ((ℕ × List ℕ) × ℕ)) (k : ℕ) (rest : List (Answer × ℕ)) (old : List ℕ)
    → (copy (got reads ++ (bytes [], k) ∷ rest) old).content
      ≡ joined reads ++ drop (length (joined reads)) old
unfolding copy
copy_lem reads k rest old = ap Copy.content (copy_loop-got reads k rest [] old)
