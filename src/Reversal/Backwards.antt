-- ===== src/Reversal/Backwards.antt =====
-- What is written: les10_my_nano/src/reverse.c.
use summer_school.Base.{
  ltb, true, ◌^◌, ◌-◌, ◌≤◌, ℕ, zero, suc, ◌+◌, ◌<◌, ◌≡◌, refl, sym, ap, ◌∙◌, some, List, [], ◌∷◌,
  ◌++◌, ◌==◌, false, length, take, drop, arith, length-append,
}
use mathlib.Core.List.{append_assoc, append-nil, reverse, reverse-cons, reverse-reverse}
use summer_school.Reversal.Pieces.{
  drop-suc, drop-add, length-reverse, take_nil, length-take_le, take-append_take,
}
use summer_school.Shell.Text.{drop-append, length-drop}
use summer_school.Reversal.Descriptor.{File}
use summer_school.Reversal.{count_bytes, backwards, reversed}

module _ {F : Type 0} (file : File F) where
  abbrev left_of : F → List ℕ
  left_of f = drop (file.offset f) (file.content f)

  -- A read of one byte, at the place that the loop has moved to.
  read-one :
      (f : F) (x : ℕ) (xs : List ℕ)
      → left_of f ≡ x ∷ xs
      → ((file.read 1 f).0 ≡ x ∷ []) × (left_of (file.read 1 f).1 ≡ xs)
  read-one f x xs e =
      let byte : (file.read 1 f).0 ≡ x ∷ [] = file.reads 1 f ∙ ap (take 1) e in
      let next : file.offset (file.read 1 f).1 ≡ file.offset f + 1 =
        file.moves 1 f ∙ ap (λ l. file.offset f + length l) byte in
      (
        byte,
        ap (λ o. drop o (file.content (file.read 1 f).1)) next
            ∙ ap (drop (file.offset f + 1)) (file.keeps_read 1 f)
            ∙ ap (λ o. drop o (file.content f)) {x = file.offset f + 1} {y = suc (file.offset f)}
                (omega arith)
            ∙ drop-suc (file.offset f) (file.content f)
            ∙ ap (drop 1) e,
      )

  stays_at :
      (i : ℕ) (f : F) → length (file.content f) < i → left_of (file.lseek_end i f) ≡ left_of f
  stays_at i f h =
      ap (λ o. drop o (file.content (file.lseek_end i f))) (file.stays i f h)
      ∙ ap (drop (file.offset f)) (file.keeps i f)

  -- In front of the file the place stays, and the loop reads on.
  backwards-front :
      (left i : ℕ) (f : F) (xs : List ℕ)
      → length (file.content f) < i
      → left_of f ≡ xs
      → backwards file left i f ≡ take left xs
  unfolding backwards
  backwards-front zero i f xs h e = refl
  backwards-front (suc left) i f [] h e =
      let g = file.lseek_end i f in
      let here : left_of g ≡ [] = stays_at i f h ∙ e in
      let none_left : (file.read 1 g).0 ≡ [] = file.reads 1 g ∙ ap (take 1) here in
      rw none_left refl
  backwards-front (suc left) i f (x ∷ xs) h e =
      let g = file.lseek_end i f in
      let here : left_of g ≡ x ∷ xs = stays_at i f h ∙ e in
      let (byte, next) = read-one g x xs here in
      let same : file.content (file.read 1 g).1 ≡ file.content f =
        file.keeps_read 1 g ∙ file.keeps i f in
      let rest = backwards-front left (i + 1) (file.read 1 g).1 xs (rw same (omega arith)) next in
      rw (byte, rest) refl

  -- The next byte, when `c` stands behind `front` reversed and `back` is written.
  byte_at :
      (front back : List ℕ) (i c : ℕ) (f : F)
      → file.content f ≡ reverse (c ∷ front) ++ back
      → i ≡ length back + 1
      → left_of (file.lseek_end i f) ≡ c ∷ back
  byte_at front back i c f e h =
      let whole : file.content f ≡ reverse front ++ c ∷ back =
        e
        ∙ ap (λ l. l ++ back) (reverse-cons c front)
        ∙ append_assoc (reverse front) (c ∷ []) back in
      let size : length (file.content f) ≡ length (reverse front) + suc (length back) =
        ap length whole ∙ length-append {0} (reverse front) (c ∷ back) in
      let place : file.offset (file.lseek_end i f) ≡ length (reverse front) =
        file.seeks i f (omega arith) ∙ omega arith in
      ap (λ o. drop o (file.content (file.lseek_end i f))) place
      ∙ ap (drop (length (reverse front))) (file.keeps i f ∙ whole)
      ∙ drop-append (reverse front) (c ∷ back)

  -- `front` is still to be written, from its end on, and `back` is written.
  backwards-append :
      (front back : List ℕ) (n extra i c : ℕ) (f : F)
      → n ≡ suc (length front) + extra
      → file.content f ≡ reverse (c ∷ front) ++ back
      → i ≡ length back + 1
      → backwards file n i f ≡ (c ∷ front) ++ take extra (drop 1 (file.content f))
  unfolding backwards
  backwards-append front back zero extra i c f z e h = absurd (omega arith)
  backwards-append [] back (suc m) extra i c f z e h =
      let g = file.lseek_end i f in
      let (byte, next) = read-one g c back (byte_at [] back i c f e h) in
      let same : file.content (file.read 1 g).1 ≡ file.content f =
        file.keeps_read 1 g ∙ file.keeps i f in
      let rest =
        backwards-front m (i + 1) (file.read 1 g).1 back (rw same (omega (arith, ap length e)))
          next in
      rw (byte, rest)
        (ap (λ k. c ∷ take k back) {x = m} {y = extra} (omega arith)
          ∙ ap (λ l. c ∷ take extra (drop 1 l)) (sym e))
  backwards-append (d ∷ front) back (suc m) extra i c f z e h =
      let g = file.lseek_end i f in
      let (byte, next) = read-one g c back (byte_at (d ∷ front) back i c f e h) in
      let same : file.content (file.read 1 g).1 ≡ file.content f =
        file.keeps_read 1 g ∙ file.keeps i f in
      let rest =
        backwards-append front (c ∷ back) m extra (i + 1) d (file.read 1 g).1 (omega arith)
          (same
            ∙ e
            ∙ ap (λ l. l ++ back) (reverse-cons c (d ∷ front))
            ∙ append_assoc (reverse (d ∷ front)) (c ∷ []) back)
          (omega arith) in
      rw (byte, rest, same) refl

  -- The loop from the end of the file, with `extra` rounds more than it has bytes.
  backwards-reverse :
      (rp : List ℕ) (extra : ℕ) (f : F)
      → reverse (file.content f) ≡ rp
      → left_of f ≡ []
      → backwards file (length (file.content f) + extra) 1 f
        ≡ rp ++ take extra (drop 1 (file.content f))
  backwards-reverse [] extra f r e =
      let empty : file.content f ≡ [] = sym (reverse-reverse (file.content f)) ∙ ap reverse r in
      backwards-front (length (file.content f) + extra) 1 f [] (rw empty (omega arith)) e
      ∙ take_nil (length (file.content f) + extra)
      ∙ sym (ap (λ l. take extra (drop 1 l)) empty ∙ take_nil extra)
  backwards-reverse (c ∷ front) extra f r e =
      let whole : file.content f ≡ reverse (c ∷ front) =
        sym (reverse-reverse (file.content f)) ∙ ap reverse r in
      backwards-append front [] (length (file.content f) + extra) extra 1 c f
        (omega (arith, ap length r, length-reverse (file.content f)))
        (whole ∙ sym (append-nil (reverse (c ∷ front)))) refl

  left_of-read :
      (n : ℕ) (f : F) (xs : List ℕ)
      → left_of f ≡ xs
      → ((file.read n f).0 ≡ take n xs) × (left_of (file.read n f).1 ≡ drop (length (take n xs)) xs)
  left_of-read n f xs e =
      let chunk : (file.read n f).0 ≡ take n xs = file.reads n f ∙ ap (take n) e in
      let k = length (take n xs) in
      let next : file.offset (file.read n f).1 ≡ file.offset f + k =
        file.moves n f ∙ ap (λ l. file.offset f + length l) chunk in
      (
        chunk,
        ap (λ o. drop o (file.content (file.read n f).1)) next
            ∙ ap (drop (file.offset f + k)) (file.keeps_read n f)
            ∙ drop-add (file.offset f) k (file.content f)
            ∙ ap (drop k) e,
      )

  count_bytes_lem :
      (fuel size : ℕ) (f : F) (xs : List ℕ)
      → left_of f ≡ xs
      → length xs < fuel
      → size + length xs < 2 ^ 32
      → (g : F) × (count_bytes file fuel size f ≡ some (size + length xs, g))
        × (file.content g ≡ file.content f)
        × (left_of g ≡ [])
  unfolding count_bytes
  count_bytes_lem zero size f xs e h b = absurd (omega arith)
  count_bytes_lem (suc fuel) size f [] e h b =
      let (chunk, behind) = left_of-read 3 f [] e in
      (
        (file.read 3 f).1,
        rw chunk (ap (λ n. some (n, (file.read 3 f).1)) {x = size} {y = size + 0} (omega arith)),
        file.keeps_read 3 f,
        behind,
      )
  count_bytes_lem (suc fuel) size f (x ∷ xs) e h b =
      let (chunk, behind) = left_of-read 3 f (x ∷ xs) e in
      let k = length (take 3 (x ∷ xs)) in
      let on : (k == 0) ≡ false = ground arith in
      let size_left = length-drop k (x ∷ xs) (length-take_le 3 (x ∷ xs)) in
      let (g, runs, same, end) =
        count_bytes_lem fuel (size + k) (file.read 3 f).1 (drop k (x ∷ xs)) behind (omega arith)
          (omega arith) in
      let fits : ltb (size + k) (2 ^ 32) ≡ true = ground arith in
      (
        g,
        rw (chunk, on, fits)
            (runs
              ∙ ap (λ n. some (n, g)) {x = size + k + length (drop k (x ∷ xs))}
                  {y = size + length (x ∷ xs)} (omega arith)),
        same ∙ file.keeps_read 3 f,
        end,
      )

  -- One round of fewer rounds, when `rest` is the same for the rounds behind it.
  round-take :
      (n t i : ℕ) (f : F) (xs : List ℕ)
      → ((g : F) → backwards file n (i + 1) g ≡ take n (backwards file t (i + 1) g))
      → left_of (file.lseek_end i f) ≡ xs
      → backwards file (suc n) i f ≡ take (suc n) (backwards file (suc t) i f)
  unfolding backwards
  round-take n t i f [] rest e =
      let none_left : (file.read 1 (file.lseek_end i f)).0 ≡ [] =
        file.reads 1 (file.lseek_end i f) ∙ ap (take 1) e in
      rw none_left refl
  round-take n t i f (x ∷ xs) rest e =
      let g = file.lseek_end i f in
      let (byte, next) = read-one g x xs e in rw byte (ap (λ l. x ∷ l) (rest (file.read 1 g).1))

  -- Fewer rounds write the front of what more rounds write.
  backwards-take :
      (n t i : ℕ) (f : F) → n ≤ t → backwards file n i f ≡ take n (backwards file t i f)
  unfolding backwards
  backwards-take zero t i f h = refl
  backwards-take (suc n) zero i f h = absurd (omega arith)
  backwards-take (suc n) (suc t) i f h =
      round-take n t i f (left_of (file.lseek_end i f))
        (λ g. backwards-take n t (i + 1) g (omega arith)) refl

  -- A file that is read from its start is written backwards, with its bytes from the second one on in
  -- their order behind that, and of this as many bytes as `size` says: the length of the file and what
  -- `size` has held before, which may be negative. The sum is not above the greatest `int`.
  pub reversed_lem :
      (fuel junk : ℕ) (f : F)
      → file.offset f ≡ 0
      → length (file.content f) < fuel
      → junk + length (file.content f) < 2 ^ 32
      → reversed file fuel junk f
        ≡ some (
            take
              (junk + length (file.content f) - 2 ^ 31)
              (reverse (file.content f) ++ drop 1 (file.content f)))
  unfolding reversed
  reversed_lem fuel junk f z h b =
      let (g, runs, same, end) =
        count_bytes_lem fuel junk f (file.content f) (ap (λ o. drop o (file.content f)) z) h b in
      let n = junk + length (file.content f) - 2 ^ 31 in
      let written =
        backwards-take n (length (file.content g) + n) 1 g (omega arith)
        ∙ ap (take n) (backwards-reverse (reverse (file.content g)) n g refl end)
        ∙ take-append_take n n (reverse (file.content g)) (drop 1 (file.content g)) (omega arith) in
      rw (runs, written, same) refl
