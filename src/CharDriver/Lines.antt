-- ===== src/CharDriver/Lines.antt =====
-- Writing a line to the device (les29_linux_modules/driver.c, proc_module.c, sys_module.c).
use mathlib.Core.List.{append_assoc}
use native.Mathlib.Nat.{add-zero, suc-add, zero-add}
use summer_school.Base.{
  ℕ, zero, suc, ◌+◌, ◌≤◌, ◌<◌, ◌≡◌, ◌≢◌, ◌∙◌, refl, ap, none, some, List, [], ◌∷◌, ◌++◌, All,
  length, drop, get_elem?, store, store-eq, store_out, length-append, arith, get_elem?-append,
  set-append, store-append, store-length, sym, Option-cases, inl, inr,
}
use summer_school.CharDriver.{copy_line, terminate, driver_write}

-- The text has no line feed.
abbrev pub IsLine : List ℕ → Type 0
IsLine = All (λ c. c ≢ 10)

module _ (fuel : ℕ) (buffer : List ℕ) (i : ℕ) (w : List ℕ) where
  copy_line_stop : get_elem? buffer i ≡ some 10 → copy_line (suc fuel) buffer i w ≡ some (w, i)
  unfolding copy_line
  copy_line_stop e = rw e refl

  copy_line_step :
      (c : ℕ) (w' : List ℕ)
      → get_elem? buffer i ≡ some c
      → c ≢ 10
      → store w i c ≡ some w'
      → copy_line (suc fuel) buffer i w ≡ copy_line fuel buffer (i + 1) w'
  unfolding copy_line
  copy_line_step c w' e n p = rw (e, p) (ground arith)

  copy_line_full :
      (c : ℕ)
      → get_elem? buffer i ≡ some c
      → c ≢ 10
      → store w i c ≡ none
      → copy_line (suc fuel) buffer i w ≡ none
  unfolding copy_line
  copy_line_full c e n p = rw (e, p) (ground arith)

-- The loop, when `front` is copied and `line` is still to come.
copy_line-eq :
    (line : List ℕ) (fuel : ℕ) (front rest old buffer to_write : List ℕ) (i : ℕ)
    → IsLine line
    → length line < fuel
    → length line ≤ length old
    → buffer ≡ front ++ (line ++ 10 ∷ rest)
    → to_write ≡ front ++ old
    → i ≡ length front
    → copy_line fuel buffer i to_write
      ≡ some (front ++ (line ++ drop (length line) old), length front + length line)
copy_line-eq line zero front rest old buffer to_write i l f h e w j = absurd (omega arith)
copy_line-eq [] (suc fuel) front rest old buffer to_write i l f h e w j =
    copy_line_stop fuel buffer i to_write (rw (e, j) (get_elem?-append front rest 10))
    ∙ ground (arith, add-zero (length front))
copy_line-eq (c ∷ line) (suc fuel) front rest [] buffer to_write i l f h e w j =
    absurd (omega arith)
copy_line-eq (c ∷ line) (suc fuel) front rest (o ∷ old) buffer to_write i l f h e w j =
    copy_line_step fuel buffer i to_write c (front ++ c ∷ old)
      (rw (e, j) (get_elem?-append front (line ++ 10 ∷ rest) c)) l.0
      (rw (w, j)
        (store-eq (front ++ o ∷ old) (length front) c
            (omega (arith, length-append {0} front (o ∷ old)))
          ∙ ap some (set-append front old o c)))
    ∙ copy_line-eq line fuel (front ++ c ∷ []) rest old buffer (front ++ c ∷ old) (i + 1) l.1
        (omega arith) (omega arith) (e ∙ sym (append_assoc front (c ∷ []) (line ++ 10 ∷ rest)))
        (sym (append_assoc front (c ∷ []) old)) (omega (arith, length-append {0} front (c ∷ [])))
    ∙ ground (
      arith,
      append_assoc front (c ∷ []) (line ++ drop (length line) old),
      length-append front (c ∷ []),
    )

drop_two :
    (xs : List ℕ) (n : ℕ)
    → n + 2 ≤ length xs
    → (x : ℕ) × (y : ℕ) × (drop n xs ≡ x ∷ y ∷ drop (n + 2) xs)
drop_two [] n h = absurd (omega arith)
drop_two (x ∷ []) n h = absurd (omega arith)
drop_two (x ∷ y ∷ xs) zero h = (x, y, refl)
drop_two (x ∷ y ∷ xs) (suc n) h =
    let (a, b, e) = drop_two (y ∷ xs) n (omega arith) in (a, b, rw suc-add e)

-- A store one behind the element that follows a prefix.
store_second :
    (xs ys : List ℕ) (a y v : ℕ)
    → store (xs ++ a ∷ y ∷ ys) (length xs + 1) v ≡ some (xs ++ a ∷ v ∷ ys)
store_second xs ys a y v = ground (
  arith,
  store-append (xs ++ a ∷ []) ys y v,
  append_assoc xs (a ∷ []) (y ∷ ys),
  append_assoc xs (a ∷ []) (v ∷ ys),
  length-append xs (a ∷ []),
)

-- A copy that ends has gone past every character that is no line feed.
copy_line-le :
    (fuel : ℕ) (buffer : List ℕ) (i : ℕ) (w w' : List ℕ) (j : ℕ)
    → copy_line fuel buffer i w ≡ some (w', j)
    → (i ≤ j) × (length w' ≡ length w)
unfolding copy_line
copy_line-le zero buffer i w w' j e = absurd (ground arith)
copy_line-le (suc fuel) buffer i w w' j e = elim (Option-cases (get_elem? buffer i)) [
  | inl out ↦ absurd (ground arith)
  | inr (c, ec) ↦ elim (Option-cases (store w i c)) [
    | inl full ↦ ground arith
    | inr (w₁, es) ↦ ground (arith, store-length w i c es, copy_line-le fuel buffer (i + 1) w₁ w' j)
  ]
]

copy_line-zero : (buffer : List ℕ) (i : ℕ) (w : List ℕ) → copy_line zero buffer i w ≡ none
unfolding copy_line
copy_line-zero buffer i w = refl

terminate_out : (w : List ℕ) (j : ℕ) → length w ≤ j + 1 → terminate w j ≡ none
unfolding terminate
terminate_out w j h = elim (Option-cases (store w j 10)) [
  | inl full ↦ rw full refl
  | inr (w₁, es) ↦ rw es (store_out w₁ (j + 1) 0 (omega (arith, store-length w j 10 es)))
]

copy_line-line :
    (line : List ℕ) (fuel : ℕ) (front rest buffer w w' : List ℕ) (i j : ℕ)
    → IsLine line
    → buffer ≡ front ++ (line ++ rest)
    → i ≡ length front
    → copy_line fuel buffer i w ≡ some (w', j)
    → (i + length line ≤ j) × (length w' ≡ length w)
copy_line-line [] fuel front rest buffer w w' i j l e k h =
    omega (arith, copy_line-le fuel buffer i w w' j h)
copy_line-line (c ∷ line) zero front rest buffer w w' i j l e k h =
    absurd (ground (arith, copy_line-zero buffer i w))
copy_line-line (c ∷ line) (suc fuel) front rest buffer w w' i j l e k h =
    elim (Option-cases (store w i c)) [
      | inl full ↦ absurd (ground (arith, copy_line_full fuel buffer i w c ec l.0 full))
      | inr (w₁, es) ↦ omega (
        arith,
        store-length w i c es,
        copy_line-line line fuel (front ++ c ∷ []) rest buffer w₁ w' (i + 1) j l.1
            (e ∙ sym (append_assoc front (c ∷ []) (line ++ rest)))
            (omega (arith, length-append {0} front (c ∷ [])))
            (sym (copy_line_step fuel buffer i w c w₁ ec l.0 es) ∙ h),
      )
    ]
  where
    ec : get_elem? buffer i ≡ some c
    ec = rw (e, k) (get_elem?-append front (line ++ rest) c)

-- A line of at most 254 characters is copied whole, with its line feed and a zero byte behind it;
-- the rest of `toWrite` keeps its old content, and the write reports `len`.
pub driver_write_line :
    (fuel : ℕ) (line rest old : List ℕ) (len : ℕ)
    → IsLine line
    → length line < fuel
    → length old ≡ 256
    → length line ≤ 254
    → driver_write fuel old (line ++ 10 ∷ rest) len
      ≡ some (line ++ 10 ∷ 0 ∷ drop (length line + 2) old, len)
unfolding driver_write terminate
driver_write_line fuel line rest old len l f o h =
    let (x, y, two) = drop_two old (length line) (omega arith) in
    rw
      (
        copy_line-eq line fuel [] rest old (line ++ 10 ∷ rest) old 0 l f (omega arith) refl refl
            refl,
        two,
        zero-add,
        store-append line (y ∷ drop (length line + 2) old) x 10,
        store_second line (drop (length line + 2) old) 10 y 0,
      )
      refl

-- A text with no line feed in its first 255 bytes runs out of `toWrite`, whatever follows.
pub driver_write_overflow :
    (fuel : ℕ) (line rest old : List ℕ) (len : ℕ)
    → IsLine line
    → length old ≡ 256
    → 255 ≤ length line
    → driver_write fuel old (line ++ rest) len ≡ none
unfolding driver_write
driver_write_overflow fuel line rest old len l o h =
    elim (Option-cases (copy_line fuel (line ++ rest) 0 old)) [
      | inl out ↦ rw out refl
      | inr (r, e) ↦
          let (far, same) =
            copy_line-line line fuel [] rest (line ++ rest) old r.0 0 r.1 l refl refl e in
          rw (e, terminate_out r.0 r.1 (omega arith)) refl
    ]
