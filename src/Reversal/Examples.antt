-- ===== src/Reversal/Examples.antt =====
-- A file of five bytes; a descriptor is its offset.
use summer_school.Base.{
  ◌^◌, ℕ, ◌+◌, ◌-◌, ◌≡◌, refl, some, List, [], ◌∷◌, leb, if◌then◌else◌, length, take, drop, arith,
}
use summer_school.Reversal.Descriptor.{File}
use summer_school.Reversal.{reversed, count_bytes, backwards}
use summer_school.Reversal.Backwards.{reversed_lem}

abbrev five : List ℕ
five = b'a' ∷ b'b' ∷ b'c' ∷ b'd' ∷ b'e' ∷ []

abbrev chunk : ℕ → ℕ → List ℕ
chunk n o = take n (drop o five)

letters : File ℕ
letters = record {
  lseek_end = λ i o. if leb i 5 then 5 - i else o;
  read = λ n o. (chunk n o, o + length (chunk n o));
  content = λ o. five;
  offset = λ o. o;
  seeks = λ i o h. ground arith;
  stays = λ i o h. ground arith;
  keeps = λ i o. refl;
  reads = λ n o. refl;
  moves = λ n o. refl;
  keeps_read = λ n o. refl;
}

reversed_lem_example :
    reversed letters 6 (2 ^ 31) 0
    ≡ some (take 5 (b'e' ∷ b'd' ∷ b'c' ∷ b'b' ∷ b'a' ∷ b'b' ∷ b'c' ∷ b'd' ∷ b'e' ∷ []))
unfolding letters
reversed_lem_example = reversed_lem letters 6 (2 ^ 31) 0 refl (omega arith) (omega arith)

-- `size` has been 2 before: two bytes more are written.
two_more :
    reversed letters 6 (2 ^ 31 + 2) 0 ≡ some (b'e' ∷ b'd' ∷ b'c' ∷ b'b' ∷ b'a' ∷ b'b' ∷ b'c' ∷ [])
unfolding reversed count_bytes backwards letters
two_more = refl

-- `size` has been -3 before: three bytes are left out.
three_less : reversed letters 6 (2 ^ 31 - 3) 0 ≡ some (b'e' ∷ b'd' ∷ [])
unfolding reversed count_bytes backwards letters
three_less = refl
