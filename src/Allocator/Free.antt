-- ===== src/Allocator/Free.antt =====
-- What `good_free` does (les12_malloc/src/main.c), and the heaps that the two functions reach.
use summer_school.Base.{
  ℕ, zero, suc, ◌+◌, ◌-◌, ◌≤◌, ◌<◌, ◌≡◌, ◌≢◌, refl, true, Option, none, some, List, set, store-eq,
  get_elem?-eq-get_or, length, inl, inr, arith, ◌⊎◌, ◌∙◌, ap, sym, get_elem?_out, dec_lt,
  ℕ_discrete, ◌>>=◌,
}
use summer_school.Allocator.{
  Chunk, Heap, max_chunks, find_ptr, give_back, mark_free, good_malloc, good_free,
}
use summer_school.Allocator.Table.{null_chunk, entry, IsHeap, set-IsHeap}
use summer_school.Allocator.Malloc.{good_malloc-IsHeap, good_malloc-total_allocated}

-- With the tested entry in the table and another pointer than asked for, the loop runs to its end.
find_ptr-ne :
    (left : ℕ) (chunk : List Chunk) (n ptr i : ℕ)
    → n < length chunk
    → (entry chunk n).ptr ≢ ptr
    → find_ptr left chunk n ptr i ≡ some (i + left)
unfolding find_ptr
find_ptr-ne zero chunk n ptr i h d = ap some (omega arith)
find_ptr-ne (suc left) chunk n ptr i h d =
    ground
      (arith, get_elem?-eq-get_or chunk n null_chunk h, find_ptr-ne left chunk n ptr (i + 1) h d)

-- The heap with the last entry marked free.
abbrev pub last_freed : Heap → Heap
last_freed h = record h {
  chunk =
      set h.chunk (h.chunk_index - 1)
        (record (entry h.chunk (h.chunk_index - 1)) { is_free = true });
}

mark_free-last :
    (h : Heap) (found i : ℕ)
    → IsHeap h
    → h.chunk_index ≡ suc i
    → found ≡ h.chunk_index
    → mark_free h found ≡ some (none, last_freed h)
unfolding mark_free give_back
mark_free-last h zero i v e f = absurd (omega arith)
mark_free-last h (suc k) i v e f =
    let prev : h.chunk_index - 1 ≡ i = omega arith in
    let same : k ≡ i = omega arith in
    rw (prev, same)
      (ground (
        arith,
        get_elem?-eq-get_or h.chunk i null_chunk (omega arith),
        store-eq h.chunk i (record (entry h.chunk i) { is_free = true }) (omega arith),
      ))

-- Whatever pointer other than null it is given, `good_free` marks the last entry of the table free,
-- gives no memory back and leaves all else as it was, on a heap that satisfies the invariant and
-- whose table is neither empty nor full.
pub good_free_lem :
    (h : Heap) (ptr : ℕ)
    → IsHeap h
    → ptr ≢ 0
    → 0 < h.chunk_index
    → h.chunk_index < max_chunks
    → good_free h ptr ≡ some (none, last_freed h)
unfolding good_free
good_free_lem h ptr v n low high =
    let null = v.unused h.chunk_index (omega arith) in
    rw
      (find_ptr-ne h.chunk_index h.chunk h.chunk_index ptr 0 (omega arith)
        (λ same. n (sym same ∙ null)))
      (mark_free-last h (0 + h.chunk_index) (h.chunk_index - 1) v (omega arith) (omega arith))

find_ptr-zero : (chunk : List Chunk) (n ptr i : ℕ) → find_ptr zero chunk n ptr i ≡ some i
unfolding find_ptr
find_ptr-zero chunk n ptr i = refl

-- A first round that meets the pointer, or that reads behind the table.
first_round :
    (left : ℕ) (chunk : List Chunk) (n ptr : ℕ) (k : ℕ → Option (Option ℕ × Heap))
    → ((n < length chunk) × (ptr ≡ (entry chunk n).ptr)) ⊎ (length chunk ≤ n)
    → k 0 ≡ none
    → (find_ptr left chunk n ptr 0 >>= k) ≡ none
unfolding find_ptr
first_round zero chunk n ptr k c e = e
first_round (suc left) chunk n ptr k (inl (h, same)) e =
    rw (get_elem?-eq-get_or chunk n null_chunk h) (ground arith)
first_round (suc left) chunk n ptr k (inr out) e = rw (get_elem?_out chunk n out) refl

mark_free_zero : (h : Heap) → mark_free h 0 ≡ none
unfolding mark_free
mark_free_zero h = refl

-- Outside the table: `good_free` of null, with an empty table, or with a full one.
pub good_free_fault :
    (h : Heap) (ptr : ℕ)
    → IsHeap h
    → (ptr ≡ 0) ⊎ (h.chunk_index ≡ 0) ⊎ (h.chunk_index ≡ max_chunks)
    → good_free h ptr ≡ none
unfolding good_free mark_free
good_free_fault h ptr v (inl null) = elim (dec_lt h.chunk_index max_chunks) [
  | yes room ↦
      first_round h.chunk_index h.chunk h.chunk_index ptr (mark_free h)
        (inl (omega arith, null ∙ sym (v.unused h.chunk_index (omega arith)))) (mark_free_zero h)
  | no full ↦
      first_round h.chunk_index h.chunk h.chunk_index ptr (mark_free h) (inr (omega arith))
        (mark_free_zero h)
]
good_free_fault h ptr v (inr (inl empty)) =
    rw (empty, find_ptr-zero h.chunk 0 ptr 0) (mark_free_zero h)
good_free_fault h ptr v (inr (inr full)) =
    first_round h.chunk_index h.chunk h.chunk_index ptr (mark_free h) (inr (omega arith))
      (mark_free_zero h)

-- A call of a program that uses the allocator: what it passes to the operating system and back.
pub data Call (h : Heap) : Heap → Type 0 where
  malloc :
      {h' : Heap} (size sbrk p : ℕ) → sbrk ≢ 0 → good_malloc h size sbrk ≡ some (p, h') → Call h h'
  free : {h' : Heap} (ptr : ℕ) (back : Option ℕ) → good_free h ptr ≡ some (back, h') → Call h h'

pub data Reach (s : Heap) : Heap → Type 0 where
  start : Reach s s
  call : {h h' : Heap} → Reach s h → Call h h' → Reach s h'

free-cases :
    (h : Heap) (ptr : ℕ)
    → IsHeap h
    → (good_free h ptr ≡ some (none, last_freed h)) ⊎ (good_free h ptr ≡ none)
free-cases h ptr v = elim (ℕ_discrete ptr 0) [
  | yes null ↦ inr (good_free_fault h ptr v (inl null))
  | no p ↦ elim (dec_lt 0 h.chunk_index) [
    | yes low ↦ elim (dec_lt h.chunk_index max_chunks) [
      | yes high ↦ inl (good_free_lem h ptr v p low high)
      | no full ↦ inr (good_free_fault h ptr v (inr (inr (omega arith))))
    ]
    | no empty ↦ inr (good_free_fault h ptr v (inr (inl (omega arith))))
  ]
]

-- `good_free` keeps the invariant, gives nothing back and keeps `total_allocated`.
pub good_free-IsHeap :
    (h h' : Heap) (ptr : ℕ) (back : Option ℕ)
    → IsHeap h
    → good_free h ptr ≡ some (back, h')
    → IsHeap h' × (back ≡ none) × (h'.total_allocated ≡ h.total_allocated)
good_free-IsHeap h h' ptr back v e = elim (free-cases h ptr v) [
  | inl run ↦
      let same : h' ≡ last_freed h = cc in
      (
        rw same (
            set-IsHeap h (h.chunk_index - 1)
              (record (entry h.chunk (h.chunk_index - 1)) { is_free = true }) refl v),
        cc,
        ap (λ (x : Heap). x.total_allocated) same,
      )
  | inr fault ↦ absurd (cc)
]

Call-IsHeap :
    {h h' : Heap} → Call h h' → IsHeap h → IsHeap h' × (h'.total_allocated ≡ h.total_allocated)
Call-IsHeap {h} {h'} (malloc size sbrk p n e) v =
    (good_malloc-IsHeap h h' size sbrk p v n e, good_malloc-total_allocated h h' size sbrk p v e)
Call-IsHeap {h} {h'} (free ptr back e) v =
    let (v', none', same) = good_free-IsHeap h h' ptr back v e in (v', same)

-- Every heap that calls of `good_malloc` and `good_free` reach from one that satisfies the
-- invariant satisfies it too, and `total_allocated` never changes.
pub Reach-IsHeap :
    {s h : Heap} → Reach s h → IsHeap s → IsHeap h × (h.total_allocated ≡ s.total_allocated)
Reach-IsHeap start v = (v, refl)
Reach-IsHeap (call r c) v =
    let (w, same) = Reach-IsHeap r v in let (w', same') = Call-IsHeap c w in (w', same' ∙ same)
