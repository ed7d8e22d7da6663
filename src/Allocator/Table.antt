-- ===== src/Allocator/Table.antt =====
-- The chunk table of les12_malloc/src/main.c: its invariant and the first-fit search.
use summer_school.Base.{
  ℕ, zero, suc, ◌+◌, ◌≤◌, ◌<◌, ◌≡◌, ◌≢◌, refl, true, Option, none, some, List, get_or,
  get_elem?-eq-get_or, length, Bool-cases, inl, inr, leb, ◌&&◌, arith, ◌⊎◌, ◌∙◌, dec_le, ℕ_discrete,
  set, length-set, replicate, length-replicate, [], ◌∷◌,
}
use summer_school.Allocator.{Chunk, Heap, max_chunks, size_t_of_int, first_fit, blank, initial}

abbrev pub null_chunk : Chunk
null_chunk = record { ptr = 0; size = 0; is_free = true }

-- The entry at an index, inside the table.
abbrev pub entry : List Chunk → ℕ → Chunk
entry chunk i = get_or chunk i null_chunk

-- What holds between two calls: the table has its length, its entries below `chunk_index` have an
-- address, the entries from there on have none, and no memory was given back.
pub record IsHeap (h : Heap) : Type 0 where
  pub full_length : length h.chunk ≡ max_chunks
  pub in_table : h.chunk_index ≤ max_chunks
  pub used : (i : ℕ) → i < h.chunk_index → (entry h.chunk i).ptr ≢ 0
  pub unused : (i : ℕ) → h.chunk_index ≤ i → (entry h.chunk i).ptr ≡ 0

-- The test of `good_malloc` at an entry.
abbrev pub Fits : List Chunk → ℕ → ℕ → Type 0
Fits chunk size i = ((entry chunk i).is_free ≡ true) × (size_t_of_int (entry chunk i).size ≤ size)

-- The first of the entries from `i` up to `end` that fits; `none` if none does.
abbrev pub IsFirstFit : List Chunk → (size i end : ℕ) → Option ℕ → Type 0
IsFirstFit chunk size i end none = (j : ℕ) → i ≤ j → j < end → ¬ Fits chunk size j
IsFirstFit chunk size i end (some k) =
    (i ≤ k) × (k < end) × Fits chunk size k × ((j : ℕ) → i ≤ j → j < k → ¬ Fits chunk size j)

first_fit_here :
    (left : ℕ) (chunk : List Chunk) (i size : ℕ)
    → i < length chunk
    → Fits chunk size i
    → first_fit (suc left) chunk i size ≡ some (some i)
unfolding first_fit
first_fit_here left chunk i size h f = ground (arith, get_elem?-eq-get_or chunk i null_chunk h)

first_fit_next :
    (left : ℕ) (chunk : List Chunk) (i size : ℕ)
    → i < length chunk
    → ¬ Fits chunk size i
    → first_fit (suc left) chunk i size ≡ first_fit left chunk (i + 1) size
unfolding first_fit
first_fit_next left chunk i size h f =
    rw (get_elem?-eq-get_or chunk i null_chunk h)
      (elim (Bool-cases
        ((entry chunk i).is_free && leb (size_t_of_int (entry chunk i).size) size)) [
          | inl fits ↦ absurd (f (ground arith, ground arith))
          | inr other ↦ rw other refl
        ])

Fits-cases : (chunk : List Chunk) (size i : ℕ) → Fits chunk size i ⊎ (¬ Fits chunk size i)
Fits-cases chunk size i = elim (Bool-cases (entry chunk i).is_free) [
  | inl free ↦ elim (dec_le (size_t_of_int (entry chunk i).size) size) [
    | yes small ↦ inl (free, small)
    | no large ↦ inr (λ f. large f.1)
  ]
  | inr taken ↦ inr (λ f. cc)
]

-- An entry that does not fit, in front of the others.
IsFirstFit-extend :
    (chunk : List Chunk) (size i end : ℕ)
    → ¬ Fits chunk size i
    → (r : Option ℕ) → IsFirstFit chunk size (i + 1) end r
    → IsFirstFit chunk size i end r
IsFirstFit-extend chunk size i end n none first = λ j p q f. elim (ℕ_discrete i j) [
  | yes same ↦ n (rw same f)
  | no other ↦ first j (omega arith) q f
]
IsFirstFit-extend chunk size i end n (some k) (low, high, fits, before) = (
  omega arith,
  high,
  fits,
  λ j p q f. elim (ℕ_discrete i j) [
    | yes same ↦ n (rw same f)
    | no other ↦ before j (omega arith) q f
  ],
)

-- The loop stops at the first entry that fits, and goes through all of them if none does.
pub first_fit-IsFirstFit :
    (left : ℕ) (chunk : List Chunk) (i size end : ℕ)
    → i + left ≡ end
    → end ≤ length chunk
    → (r : Option ℕ) × (first_fit left chunk i size ≡ some r) × IsFirstFit chunk size i end r
unfolding first_fit
first_fit-IsFirstFit zero chunk i size end e h = (none, refl, λ j p q f. omega arith)
first_fit-IsFirstFit (suc left) chunk i size end e h = elim (Fits-cases chunk size i) [
  | inl f ↦ (
    some i,
    first_fit_here left chunk i size (omega arith) f,
    (omega arith, omega arith, f, λ j p q g. omega arith),
  )
  | inr n ↦
      let (r, run, first) = first_fit-IsFirstFit left chunk (i + 1) size end (omega arith) h in
      (
        r,
        first_fit_next left chunk i size (omega arith) n ∙ run,
        IsFirstFit-extend chunk size i end n r first,
      )
]

-- A store that keeps the address of its entry keeps every address.
pub ptr-set :
    (chunk : List Chunk) (i : ℕ) (c : Chunk)
    → c.ptr ≡ (entry chunk i).ptr
    → (j : ℕ) → (entry (set chunk i c) j).ptr ≡ (entry chunk j).ptr
ptr-set [] i c e j = refl
ptr-set (x ∷ xs) zero c e zero = e
ptr-set (x ∷ xs) zero c e (suc j) = refl
ptr-set (x ∷ xs) (suc i) c e zero = refl
ptr-set (x ∷ xs) (suc i) c e (suc j) = ptr-set xs i c e j

-- So it keeps the invariant.
pub set-IsHeap :
    (h : Heap) (i : ℕ) (c : Chunk)
    → c.ptr ≡ (entry h.chunk i).ptr
    → IsHeap h
    → IsHeap (record h { chunk = set h.chunk i c })
set-IsHeap h i c e v = record {
  full_length = length-set h.chunk i c ∙ v.full_length;
  in_table = v.in_table;
  used = λ j q. rw (ptr-set h.chunk i c e j) (v.used j q);
  unused = λ j q. ptr-set h.chunk i c e j ∙ v.unused j q;
}

ptr-replicate : (n i : ℕ) → (entry (replicate n null_chunk) i).ptr ≡ 0
ptr-replicate zero i = refl
ptr-replicate (suc n) zero = refl
ptr-replicate (suc n) (suc i) = ptr-replicate n i

blank-IsHeap : (n : ℕ) → n ≡ max_chunks → IsHeap (blank n)
unfolding blank
blank-IsHeap n e = record {
  full_length = length-replicate n null_chunk ∙ e;
  in_table = omega arith;
  used = λ i h. absurd (omega arith);
  unused = λ i h. ptr-replicate n i;
}

-- The program starts with a heap that satisfies the invariant.
pub initial-IsHeap : IsHeap initial
unfolding initial
initial-IsHeap = blank-IsHeap max_chunks refl
