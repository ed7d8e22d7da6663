-- ===== src/Editor/Motions.antt =====
-- Where the keys take the cursor (les10_my_nano/src/main.c, `main`).
use summer_school.Base.{
  ℕ, zero, suc, ◌+◌, ◌-◌, ◌<◌, ◌≡◌, refl, ap, ◌∙◌, Bool, true, false, Bool-cases, inl, inr, List,
  [], ◌∷◌, ◌++◌, arith, leb, ◌==◌, All, replicate,
}
use summer_school.Editor.{
  Size, main_height, Call, wmove, Key, down, up, left, right, backspace, ctrl_w, ctrl_e, ctrl_r,
  new_line_key, char, Cursor, press, edit,
}

-- A place of the text window, which is `maxWidth - 2` columns wide.
pub record IsPlace (z : Size) (x y : ℕ) : Type 0 where
  pub row : x < main_height z
  pub column : y + 2 < z.max_width

-- Every `wmove` of the calls goes to a place of the window.
abbrev pub IsCall : Size → Call → Type 0
IsCall z (wmove x y) = IsPlace z x y
IsCall z _ = Unit

-- The keys that neither write text nor break the line nor save a file.
abbrev pub is_motion : Key → Bool
is_motion new_line_key = false
is_motion (char sym) = false
is_motion (ctrl_e true) = false
is_motion _ = true

abbrev IsKept : Size → Cursor × List Call → Type 0
IsKept z (c, calls) = IsPlace z c.tick_x c.tick_y × All (IsCall z) calls

-- A call that moves to the place of the counters.
moved :
    (z : Size) (x y : ℕ) (b : Bool)
    → IsPlace z x y
    → IsKept z (record { tick_x = x; tick_y = y; is_interrupted = b }, wmove x y ∷ [])
moved z x y b v = (v, (v, tt))

press-IsKept :
    (z : Size) (k : Key) (c : Cursor)
    → is_motion k ≡ true
    → IsPlace z c.tick_x c.tick_y
    → IsKept z (press z k c)
unfolding press
press-IsKept z down c h v =
    moved z _ c.tick_y c.is_interrupted (record { row = ground (arith, v.row); column = v.column })
press-IsKept z up c h v = elim (Bool-cases (c.tick_x == 0)) [
  | inl top ↦ rw top (v, tt)
  | inr below ↦ rw below (
      moved z (c.tick_x - 1) c.tick_y c.is_interrupted
        (record { row = omega (arith, v.row); column = v.column }))
]
press-IsKept z left c h v = elim (Bool-cases (c.tick_y == 0)) [
  | inl first ↦ rw first (v, tt)
  | inr later ↦ rw later (
      moved z c.tick_x (c.tick_y - 1) c.is_interrupted
        (record { row = v.row; column = omega (arith, v.column) }))
]
press-IsKept z right c h v = elim (Bool-cases (c.tick_y + 3 == z.max_width)) [
  | inl last ↦ rw last (v, tt)
  | inr before ↦ rw before (
      moved z c.tick_x (c.tick_y + 1) c.is_interrupted
        (record { row = v.row; column = ground (arith, v.column) }))
]
press-IsKept z backspace c h v =
    let v' : IsPlace z c.tick_x (c.tick_y - 1) = record {
      row = v.row;
      column = omega (arith, v.column);
    } in
    (v', (v', (tt, (v', tt))))
press-IsKept z (ctrl_w true) c h v =
    (v, (tt, (record { row = omega (arith, v.row); column = omega (arith, v.column) }, tt)))
press-IsKept z (ctrl_w false) c h v = (v, tt)
press-IsKept z (ctrl_e true) c h v = absurd (cc)
press-IsKept z (ctrl_e false) c h v = (v, tt)
press-IsKept z ctrl_r c h v = (v, (tt, tt))
press-IsKept z new_line_key c h v = absurd (cc)
press-IsKept z (char sym) c h v = absurd (cc)

All-append :
    (z : Size) (xs ys : List Call)
    → All (IsCall z) xs
    → All (IsCall z) ys
    → All (IsCall z) (xs ++ ys)
All-append z [] ys a b = b
All-append z (x ∷ xs) ys a b = (a.0, All-append z xs ys a.1 b)

-- From a place of the text window, and as long as no text is written, no line broken and no file
-- saved, the cursor stays in the window, and every call of `wmove` goes to a place of it.
pub edit-IsPlace :
    (z : Size) (keys : List Key) (c : Cursor)
    → All (λ k. is_motion k ≡ true) keys
    → IsPlace z c.tick_x c.tick_y
    → let (c', calls) = edit z keys c in IsPlace z c'.tick_x c'.tick_y × All (IsCall z) calls
unfolding edit
edit-IsPlace z [] c h v = (v, tt)
edit-IsPlace z (k ∷ keys) c h v =
    let (v₁, a₁) = press-IsKept z k c h.0 v in
    let (v₂, a₂) = edit-IsPlace z keys ((press z k c).0) h.1 v₁ in
    elim (Bool-cases c.is_interrupted) [
      | inl stop ↦ simp stop (v, tt)
      | inr on ↦ simp on (v₂, All-append z ((press z k c).1) _ a₁ a₂)
    ]

abbrev pub place : (x y : ℕ) → Cursor
place x y = record { tick_x = x; tick_y = y; is_interrupted = false }

press_right :
    (z : Size) (x y : ℕ) → z.max_width < y + 3 → (press z right (place x y)).0 ≡ place x (y + 1)
unfolding press
press_right z x y h = let past : (y + 3 == z.max_width) ≡ false = ground arith in rw past refl

press_char : (z : Size) (x y sym : ℕ) → (press z (char sym) (place x y)).0 ≡ place x (y + 1)
unfolding press
press_char z x y sym = elim (Bool-cases (leb z.max_width (y + 1 + 2))) [
  | inl past ↦ rw past refl
  | inr before ↦ rw before refl
]

right_past :
    (z : Size) (n x y : ℕ)
    → z.max_width < y + 3
    → (edit z (replicate n right) (place x y)).0 ≡ place x (y + n)
unfolding edit
right_past z zero x y h = ap (place x) (omega arith)
right_past z (suc n) x y h =
    ap (λ c. (edit z (replicate n right) c).0) (press_right z x y h)
    ∙ right_past z n x (y + 1) (omega arith)
    ∙ ap (place x) (omega arith)

-- A character typed in the last column takes the cursor behind it, where the test of the right
-- arrow, `tickY == maxWidth - 3`, never holds again: `n` presses take it `n` columns further.
pub edit_past :
    (z : Size) (n x y sym : ℕ)
    → y + 3 ≡ z.max_width
    → (edit z (char sym ∷ replicate n right) (place x y)).0 ≡ place x (y + 1 + n)
unfolding edit
edit_past z n x y sym e =
    ap (λ c. (edit z (replicate n right) c).0) (press_char z x y sym)
    ∙ right_past z n x (y + 1) (omega arith)
