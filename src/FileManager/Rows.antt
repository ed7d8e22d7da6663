-- ===== src/FileManager/Rows.antt =====
-- What a window shows (les11_my_mc/src/main.c, `redraw`).
use summer_school.Base.{
  ℕ, zero, suc, ◌+◌, ◌-◌, ◌≤◌, ◌<◌, ◌≡◌, refl, ap, ◌∙◌, true, false, some, List, [], ◌∷◌, ◌++◌, ltb,
  ◌==◌, arith, if◌then◌else◌, get_elem?, length, length-append, get_elem?-lt, get_elem?-append, sym,
  ℕ_discrete, dec_lt, true,
}
use summer_school.FileManager.{Dirent, Row, row, rows, redraw, plain, green, standout}

module _ {ℓ} {A : Type ℓ} where
  get_elem?-append_left :
      (xs ys : List A) (i : ℕ) → i < length xs → get_elem? (xs ++ ys) i ≡ get_elem? xs i
  get_elem?-append_left [] ys i h = absurd (omega arith)
  get_elem?-append_left (x ∷ xs) ys zero h = refl
  get_elem?-append_left (x ∷ xs) ys (suc i) h = get_elem?-append_left xs ys i (omega arith)

  get_elem?-append_right :
      (xs ys : List A) (i : ℕ)
      → length xs ≤ i
      → get_elem? (xs ++ ys) i ≡ get_elem? ys (i - length xs)
  get_elem?-append_right [] ys i h = let here : i - 0 ≡ i = omega arith in rw here refl
  get_elem?-append_right (x ∷ xs) ys zero h = absurd (omega arith)
  get_elem?-append_right (x ∷ xs) ys (suc i) h =
      let next : suc i - suc (length xs) ≡ i - length xs = omega arith in
      rw next (get_elem?-append_right xs ys i (omega arith))

  pub get_elem?-some : (xs : List A) (i : ℕ) → i < length xs → (a : A) × (get_elem? xs i ≡ some a)
  get_elem?-some [] i h = absurd (omega arith)
  get_elem?-some (x ∷ xs) zero h = (x, refl)
  get_elem?-some (x ∷ xs) (suc i) h = get_elem?-some xs i (omega arith)

module _ (stat : List ℕ → ℕ) (dir : List Dirent) where
  rows_step :
      (n i : ℕ) (d : Dirent)
      → get_elem? dir i ≡ some d
      → rows stat dir (suc n) i ≡ row stat green plain d ∷ rows stat dir n (i + 1)
  unfolding rows
  rows_step n i d e = rw (rows, e) refl

  length-rows : (n i : ℕ) → n + i ≤ length dir → length (rows stat dir n i) ≡ n
  unfolding rows
  length-rows zero i h = refl
  length-rows (suc n) i h =
      let (d, e) = get_elem?-some dir i (omega arith) in
      ap length (rows_step n i d e) ∙ ap suc (length-rows n (i + 1) (omega arith))

  get_elem?-rows :
      (n i j : ℕ) (d : Dirent)
      → n + i ≤ length dir
      → j < n
      → get_elem? dir (j + i) ≡ some d
      → get_elem? (rows stat dir n i) j ≡ some (row stat green plain d)
  get_elem?-rows zero i j d h k e = absurd (omega arith)
  get_elem?-rows (suc n) i zero d h k e =
      let here : 0 + i ≡ i = omega arith in ap (λ r. get_elem? r 0) (rows_step n i d (rw here at e))
  get_elem?-rows (suc n) i (suc j) d h k e =
      let (d', e') = get_elem?-some dir i (omega arith) in
      let next : suc j + i ≡ j + (i + 1) = omega arith in
      ap (λ r. get_elem? r (suc j)) (rows_step n i d' e')
      ∙ get_elem?-rows n (i + 1) j d (omega arith) (omega arith) (rw next at e)

  -- The window when the selected entry is one of the list.
  redraw_selected :
      (s : ℕ) (d : Dirent)
      → get_elem? dir s ≡ some d
      → s < length dir
      → redraw stat dir s
        ≡ rows stat dir s 0
          ++ row stat standout standout d ∷ rows stat dir (length dir - (s + 1)) (s + 1)
  unfolding redraw
  redraw_selected s d e h =
      let inside : ltb s (length dir) ≡ true = ground arith in rw (inside, e) refl

  redraw_none : (s : ℕ) → length dir ≤ s → redraw stat dir s ≡ rows stat dir (length dir) 0
  unfolding redraw
  redraw_none s h = let out : ltb s (length dir) ≡ false = ground arith in rw out refl

  module _ (s : ℕ) (d : Dirent) (e : get_elem? dir s ≡ some d) where
    inside : s < length dir
    inside = get_elem?-lt dir s e

    abbrev above : List Row
    above = rows stat dir s 0

    abbrev below : List Row
    below = rows stat dir (length dir - (s + 1)) (s + 1)

    length-above : length above ≡ s
    length-above = length-rows s 0 (omega (arith, inside))

    length-selected : length (redraw stat dir s) ≡ length dir
    length-selected =
        ap length (redraw_selected s d e inside)
        ∙ omega (
          arith,
          inside,
          length-append {0} above (row stat standout standout d ∷ below),
          length-above,
          length-rows (length dir - (s + 1)) (s + 1) (omega (arith, inside)),
        )

    row_selected : get_elem? (redraw stat dir s) s ≡ some (row stat standout standout d)
    row_selected =
        ap (λ r. get_elem? r s) (redraw_selected s d e inside)
        ∙ ap (λ k. get_elem? (above ++ row stat standout standout d ∷ below) k) (sym length-above)
        ∙ get_elem?-append above below (row stat standout standout d)

    row_above :
        (i : ℕ) (c : Dirent)
        → i < s
        → get_elem? dir i ≡ some c
        → get_elem? (redraw stat dir s) i ≡ some (row stat green plain c)
    row_above i c h f =
        let here : i + 0 ≡ i = omega arith in
        ap (λ r. get_elem? r i) (redraw_selected s d e inside)
        ∙ get_elem?-append_left above (row stat standout standout d ∷ below) i
            (omega (arith, length-above))
        ∙ get_elem?-rows s 0 i c (omega (arith, inside)) h (rw here f)

    row_below :
        (i : ℕ) (c : Dirent)
        → s < i
        → get_elem? dir i ≡ some c
        → get_elem? (redraw stat dir s) i ≡ some (row stat green plain c)
    row_below i c h f =
        let here : i - (s + 1) + (s + 1) ≡ i = omega arith in
        let k : i - length above ≡ suc (i - (s + 1)) = omega (arith, length-above) in
        ap (λ r. get_elem? r i) (redraw_selected s d e inside)
        ∙ get_elem?-append_right above (row stat standout standout d ∷ below) i
            (omega (arith, length-above))
        ∙ ap (λ j. get_elem? (row stat standout standout d ∷ below) j) k
        ∙ get_elem?-rows (length dir - (s + 1)) (s + 1) (i - (s + 1)) c (omega (arith, inside))
            (omega (arith, get_elem?-lt dir i f)) (rw here f)

  -- The window when no entry of the list is selected.
  none_selected :
      (s i : ℕ) (d : Dirent)
      → length dir ≤ s
      → get_elem? dir i ≡ some d
      → get_elem? (redraw stat dir s) i ≡ some (row stat green plain d)
  none_selected s i d h e =
      let here : i + 0 ≡ i = omega arith in
      ap (λ r. get_elem? r i) (redraw_none s h)
      ∙ get_elem?-rows (length dir) 0 i d (omega arith) (get_elem?-lt dir i e) (rw here e)

-- A window has one row for each entry of its list, in order; the selected entry is highlighted and
-- no other row is. With a selection outside the list, as for the other window, none is.
pub redraw_lem :
    (stat : List ℕ → ℕ) (dir : List Dirent) (s i : ℕ) (d : Dirent)
    → get_elem? dir i ≡ some d
    → (length (redraw stat dir s) ≡ length dir)
      × (get_elem? (redraw stat dir s) i
          ≡ some (if i == s then row stat standout standout d else row stat green plain d))
redraw_lem stat dir s i d e = elim (dec_lt s (length dir)) [
  | no out ↦ (
    ap length (redraw_none stat dir s (omega arith))
        ∙ length-rows stat dir (length dir) 0 (omega arith),
    ground (arith, none_selected stat dir s i d, get_elem?-lt dir i e),
  )
  | yes within ↦
      let (c, f) = get_elem?-some dir s within in
      let r = length-selected stat dir s c f in
      elim (ℕ_discrete i s) [
        | yes same ↦
            let here : (s == s) ≡ true = ground arith in
            (r, rw (same, here) (row_selected stat dir s d (rw same at e)))
        | no other ↦ (r, ground (arith, row_above stat dir s c f i d, row_below stat dir s c f i d))
      ]
]
