-- ===== src/Editor/Files/Shown.antt =====
-- What the editor shows of a file: `winRead` of les10_my_nano/src/main.c.
use summer_school.Base.{
  ℕ, ◌≤◌, ◌<◌, ◌≡◌, refl, ap, ◌∙◌, Option, some, List, [], ◌∷◌, ◌++◌, true, ltb, length, arith, All,
  store, overwrite, ◌==◌, if◌then◌else◌, map, store-eq, length-append,
}
use summer_school.Shell.{text_of}
use summer_school.Shell.Text.{drop_next, store-behind, length-drop}
use summer_school.Packet.Strings.{overwrite-append}
use summer_school.Editor.Files.{Answer, bytes, read_loop, win_read, done, open_key, open_with}

-- The bytes of a chunk up to its first zero byte.
abbrev pub up_to_zero : List ℕ → List ℕ
up_to_zero [] = []
up_to_zero (c ∷ cs) = let rest = up_to_zero cs in if c == 0 then [] else c ∷ rest

text_of-up_to_zero : (cs rest : List ℕ) → text_of (cs ++ 0 ∷ rest) ≡ some (up_to_zero cs)
unfolding text_of
text_of-up_to_zero [] rest = refl
text_of-up_to_zero (c ∷ cs) rest = ground (arith, text_of-up_to_zero cs rest)

-- An answer of `read`: 1 to 13 bytes.
abbrev pub IsChunk : List ℕ → Type 0
IsChunk cs = (0 < length cs) × (length cs ≤ 13)

abbrev pub shown : List (List ℕ) → List ℕ
shown [] = []
shown (cs ∷ chunks) = up_to_zero cs ++ shown chunks

read_loop-chunks :
    (chunks : List (List ℕ)) (buffer : List ℕ)
    → All IsChunk chunks
    → length buffer ≡ 15
    → read_loop (map bytes chunks) buffer ≡ some (shown chunks)
unfolding read_loop
read_loop-chunks [] buffer v h = refl
read_loop-chunks ([] ∷ chunks) buffer v h = absurd (omega (arith, v.0.0))
read_loop-chunks ((c ∷ cs) ∷ chunks) buffer v h =
    let chunk = c ∷ cs in
    let (x, r, split) = drop_next (length chunk) buffer (omega (arith, v.0.1)) in
    let stored : store (overwrite buffer chunk) (length chunk) 0 ≡ some (chunk ++ 0 ∷ r) =
      ap (λ b. store b (length chunk) 0)
        (overwrite-append buffer chunk (omega (arith, v.0.1)) ∙ ap (λ l. chunk ++ l) split)
      ∙ store-behind chunk (x ∷ r) (length chunk) 0 0 (omega arith) (omega arith) in
    let cleared : store (chunk ++ 0 ∷ r) 0 0 ≡ some (0 ∷ (cs ++ 0 ∷ r)) =
      store-eq (chunk ++ 0 ∷ r) 0 0 (omega arith) in
    let size : length (0 ∷ (cs ++ 0 ∷ r)) ≡ 15 = omega (
      arith,
      v.0.1,
      ap length split,
      length-drop (length chunk) buffer (omega (arith, v.0.1)),
      length-append {0} cs (0 ∷ r),
    ) in
    rw
      (
        stored,
        text_of-up_to_zero chunk r,
        cleared,
        read_loop-chunks chunks (0 ∷ (cs ++ 0 ∷ r)) v.1 size,
      )
      refl

-- CTRL('W') on a file that is opened and read in chunks of any size, 1 to 13 bytes each: of each chunk
-- the window shows what stands before its first zero byte, and so the whole file when it has none.
pub open_key_lem :
    (files : List ℕ → Option (List Answer)) (filename junk : List ℕ) (chunks : List (List ℕ))
    → length filename < 55
    → length junk ≡ 15
    → files filename ≡ some (map bytes chunks)
    → All IsChunk chunks
    → open_key files filename junk ≡ some (done filename (shown chunks))
unfolding open_key open_with win_read
open_key_lem files filename junk chunks f j e v =
    let fits : ltb (length filename) 55 ≡ true = ground arith in
    rw (fits, e, read_loop-chunks chunks junk v j) refl
