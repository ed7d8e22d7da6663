-- ===== src/Packet/Writes.antt =====
-- What the writes of a packet do to its bytes (les26 to les28).
use summer_school.Base.{
  drop, ◌++◌, ℕ, zero, suc, ◌+◌, ◌/◌, ◌≤◌, ◌<◌, ◌≡◌, refl, ap, ◌∙◌, some, List, [], ◌∷◌, store-eq,
  u8, set, length, length-set, get_elem?, get_elem?-set_ne, get_or, replicate, arith, All,
}
use summer_school.Checksum.Sum.{IsBytes}
use summer_school.Checksum.Verify.{IsBytes-set, store16}
use summer_school.Packet.{Put, char, short, int, put8, put16, put32, put, puts}

-- The first offset behind a write.
abbrev pub end_of : Put → ℕ
end_of (char a v) = a + 1
end_of (short a v) = a + 2
end_of (int a v) = a + 4

abbrev pub start_of : Put → ℕ
start_of (char a v) = a
start_of (short a v) = a
start_of (int a v) = a

-- The bytes after a write that lies inside.
abbrev written_byte : List ℕ → (a v : ℕ) → List ℕ
written_byte mem a v = set mem a (u8 v)

abbrev written_short : List ℕ → (a v : ℕ) → List ℕ
written_short mem a v = written_byte (written_byte mem a v) (a + 1) (v / 256)

abbrev pub written_one : Put → List ℕ → List ℕ
written_one (char a v) mem = written_byte mem a v
written_one (short a v) mem = written_short mem a v
written_one (int a v) mem = written_short (written_short mem a v) (a + 2) (v / 0x10000)

abbrev pub written : List Put → List ℕ → List ℕ
written [] mem = mem
written (p ∷ ps) mem = written ps (written_one p mem)

length-written_byte : (mem : List ℕ) (a v : ℕ) → length (written_byte mem a v) ≡ length mem
length-written_byte mem a v = length-set mem a (u8 v)

length-written_short : (mem : List ℕ) (a v : ℕ) → length (written_short mem a v) ≡ length mem
length-written_short mem a v =
    length-written_byte (written_byte mem a v) (a + 1) (v / 256) ∙ length-written_byte mem a v

pub length-written_one : (p : Put) (mem : List ℕ) → length (written_one p mem) ≡ length mem
length-written_one (char a v) mem = length-written_byte mem a v
length-written_one (short a v) mem = length-written_short mem a v
length-written_one (int a v) mem =
    length-written_short (written_short mem a v) (a + 2) (v / 0x10000)
    ∙ length-written_short mem a v

pub length-written : (ps : List Put) (mem : List ℕ) → length (written ps mem) ≡ length mem
length-written [] mem = refl
length-written (p ∷ ps) mem = length-written ps (written_one p mem) ∙ length-written_one p mem

put8-eq : (mem : List ℕ) (a v : ℕ) → a < length mem → put8 mem a v ≡ some (written_byte mem a v)
unfolding put8
put8-eq mem a v h = store-eq mem a (u8 v) h

pub put16-eq :
    (mem : List ℕ) (a v : ℕ) → a + 1 < length mem → put16 mem a v ≡ some (written_short mem a v)
unfolding put16
put16-eq mem a v h =
    rw (put8-eq mem a v (omega arith)) (
      put8-eq (written_byte mem a v) (a + 1) (v / 256) (omega (arith, length-written_byte mem a v)))

put-eq : (p : Put) (mem : List ℕ) → end_of p ≤ length mem → put p mem ≡ some (written_one p mem)
unfolding put put32
put-eq (char a v) mem h = put8-eq mem a v (omega arith)
put-eq (short a v) mem h = put16-eq mem a v (omega arith)
put-eq (int a v) mem h = rw (put16-eq mem a v (omega arith)) (
    put16-eq (written_short mem a v) (a + 2) (v / 0x10000)
      (omega (arith, length-written_short mem a v)))

-- Writes that lie inside the structure succeed.
pub puts-eq :
    (ps : List Put) (mem : List ℕ) (n : ℕ)
    → length mem ≡ n
    → All (λ p. end_of p ≤ n) ps
    → puts ps mem ≡ some (written ps mem)
unfolding puts
puts-eq [] mem n e h = refl
puts-eq (p ∷ ps) mem n e h =
    rw (put-eq p mem (omega (arith, h.0)))
      (puts-eq ps (written_one p mem) n (length-written_one p mem ∙ e) h.1)

-- What is stored are bytes.
IsBytes-written_byte : (mem : List ℕ) (a v : ℕ) → IsBytes mem → IsBytes (written_byte mem a v)
IsBytes-written_byte mem a v b = IsBytes-set mem a (u8 v) b (omega arith)

IsBytes-written_short : (mem : List ℕ) (a v : ℕ) → IsBytes mem → IsBytes (written_short mem a v)
IsBytes-written_short mem a v b =
    IsBytes-written_byte (written_byte mem a v) (a + 1) (v / 256) (IsBytes-written_byte mem a v b)

IsBytes-written_one : (p : Put) (mem : List ℕ) → IsBytes mem → IsBytes (written_one p mem)
IsBytes-written_one (char a v) mem b = IsBytes-written_byte mem a v b
IsBytes-written_one (short a v) mem b = IsBytes-written_short mem a v b
IsBytes-written_one (int a v) mem b =
    IsBytes-written_short (written_short mem a v) (a + 2) (v / 0x10000)
      (IsBytes-written_short mem a v b)

pub IsBytes-written : (ps : List Put) (mem : List ℕ) → IsBytes mem → IsBytes (written ps mem)
IsBytes-written [] mem b = b
IsBytes-written (p ∷ ps) mem b =
    IsBytes-written ps (written_one p mem) (IsBytes-written_one p mem b)

-- A write leaves the bytes ahead of it.
get_elem?-written_short :
    (mem : List ℕ) (a v i : ℕ) → i < a → get_elem? (written_short mem a v) i ≡ get_elem? mem i
get_elem?-written_short mem a v i h =
    get_elem?-set_ne (written_byte mem a v) (u8 (v / 256)) (omega arith)
    ∙ get_elem?-set_ne mem (u8 v) (omega arith)

get_elem?-written_one :
    (p : Put) (mem : List ℕ) (i : ℕ)
    → i < start_of p
    → get_elem? (written_one p mem) i ≡ get_elem? mem i
get_elem?-written_one (char a v) mem i h = get_elem?-set_ne mem (u8 v) (omega arith)
get_elem?-written_one (short a v) mem i h = get_elem?-written_short mem a v i h
get_elem?-written_one (int a v) mem i h =
    get_elem?-written_short (written_short mem a v) (a + 2) (v / 0x10000) i (omega arith)
    ∙ get_elem?-written_short mem a v i h

pub get_elem?-written :
    (ps : List Put) (mem : List ℕ) (i n : ℕ)
    → i < n
    → All (λ p. n ≤ start_of p) ps
    → get_elem? (written ps mem) i ≡ get_elem? mem i
get_elem?-written [] mem i n l h = refl
get_elem?-written (p ∷ ps) mem i n l h =
    get_elem?-written ps (written_one p mem) i n l h.1
    ∙ get_elem?-written_one p mem i (omega (arith, h.0))

-- The result of `checksum` is stored whole.
pub written-store16 :
    (mem : List ℕ) (a c : ℕ) → c ≤ 0xFFFF → written_one (short a c) mem ≡ store16 mem a c
written-store16 mem a c h =
    let high : u8 (c / 256) ≡ c / 256 = omega arith in
    ap (λ v. set (set mem a (u8 c)) (a + 1) v) high

get_or-replicate : (n i : ℕ) → ◌≡◌ {A = ℕ} (get_or (replicate n 0) i 0) 0
get_or-replicate zero i = refl
get_or-replicate (suc n) zero = refl
get_or-replicate (suc n) (suc i) = get_or-replicate n i

-- A zeroed structure.
pub IsBytes-replicate : (n : ℕ) → IsBytes (replicate n 0)
IsBytes-replicate n i = omega (arith, get_or-replicate n i)

-- The first bytes of a structure from an offset on, one by one.
abbrev pub heads : (n i : ℕ) → List ℕ → List ℕ
heads zero i m = []
heads (suc n) i m = get_or m i 0 ∷ heads n (suc i) m

drop-cons : (i : ℕ) (m : List ℕ) → i < length m → get_or m i 0 ∷ drop (suc i) m ≡ drop i m
drop-cons i [] h = absurd (omega arith)
drop-cons zero (x ∷ m) h = refl
drop-cons (suc i) (x ∷ m) h = drop-cons i m (omega arith)

pub heads-drop :
    (n i : ℕ) (m : List ℕ) → i + n ≤ length m → heads n i m ++ drop (i + n) m ≡ drop i m
heads-drop zero i m h = ap (λ k. drop k m) (omega arith)
heads-drop (suc n) i m h =
    ap (λ k. get_or m i 0 ∷ heads n (suc i) m ++ drop k m) (omega arith)
    ∙ ap (λ l. get_or m i 0 ∷ l) (heads-drop n (suc i) m (omega arith))
    ∙ drop-cons i m (omega arith)
