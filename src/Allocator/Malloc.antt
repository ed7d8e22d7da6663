-- ===== src/Allocator/Malloc.antt =====
-- What `good_malloc` does (les12_malloc/src/main.c).
use summer_school.Base.{
  ℕ, ◌+◌, ◌<◌, ◌≡◌, ◌≢◌, refl, false, Option, none, some, set, store-eq, store_out,
  get_elem?-eq-get_or, get_or-set_self, get_or-set_ne, length-set, inl, inr, arith, ◌⊎◌, ◌∙◌, ap,
  ℕ_discrete, dec_lt, u32,
}
use summer_school.Allocator.{Chunk, Heap, max_chunks, take_chunk, good_malloc}
use summer_school.Allocator.Table.{
  null_chunk, entry, IsHeap, IsFirstFit, first_fit-IsFirstFit, set-IsHeap,
}

-- The heap after the entry `i` is reused for `size` bytes.
abbrev pub reused : Heap → ℕ → ℕ → Heap
reused h i size = record h {
  chunk = set h.chunk i (record (entry h.chunk i) { is_free = false; size = u32 size });
}

-- The heap after a new entry for `size` bytes at the address `p`.
abbrev pub extended : Heap → ℕ → ℕ → Heap
extended h size p = record h {
  chunk = set h.chunk h.chunk_index (record { ptr = p; size = u32 size; is_free = false });
  chunk_index = h.chunk_index + 1;
}

-- What `good_malloc` returns for a search that ends with `r`.
abbrev pub Result : Heap → (size sbrk : ℕ) → Option ℕ → Option (ℕ × Heap) → Type 0
Result h size sbrk (some i) out = out ≡ some ((entry h.chunk i).ptr, reused h i size)
Result h size sbrk none out =
    ((h.chunk_index < max_chunks) × (out ≡ some (sbrk, extended h size sbrk)))
    ⊎ ((h.chunk_index ≡ max_chunks) × (out ≡ none))

take_chunk-Result :
    (h : Heap) (size sbrk : ℕ) (r : Option ℕ)
    → IsHeap h
    → IsFirstFit h.chunk size 0 h.chunk_index r
    → Result h size sbrk r (take_chunk h size sbrk r)
unfolding take_chunk
take_chunk-Result h size sbrk (some i) v (low, high, fits, before) =
    rw
      (
        get_elem?-eq-get_or h.chunk i null_chunk (omega arith),
        store-eq h.chunk i (record (entry h.chunk i) { is_free = false; size = u32 size })
            (omega arith),
      )
      refl
take_chunk-Result h size sbrk none v first = elim (dec_lt h.chunk_index max_chunks) [
  | yes room ↦ inl (
    room,
    rw
        (store-eq h.chunk h.chunk_index (record { ptr = sbrk; size = u32 size; is_free = false })
          (omega arith))
        refl,
  )
  | no full ↦ inr (
    omega arith,
    rw
        (store_out h.chunk h.chunk_index (record { ptr = sbrk; size = u32 size; is_free = false })
          (omega arith))
        refl,
  )
]

-- On a heap that satisfies the invariant, `good_malloc` reuses the first free entry whose recorded
-- size is at most the size asked for, and records the new size there. If there is none it takes a
-- new entry at the address that `sbrk` gives, or runs out of the table when that is full.
pub good_malloc_lem :
    (h : Heap) (size sbrk : ℕ)
    → IsHeap h
    → (r : Option ℕ) × IsFirstFit h.chunk size 0 h.chunk_index r
      × Result h size sbrk r (good_malloc h size sbrk)
unfolding good_malloc
good_malloc_lem h size sbrk v =
    let (r, run, first) =
      first_fit-IsFirstFit h.chunk_index h.chunk 0 size h.chunk_index (omega arith) (omega arith) in
    (r, first, rw run (take_chunk-Result h size sbrk r v first))

pub extended-IsHeap :
    (h : Heap) (size sbrk : ℕ)
    → IsHeap h
    → sbrk ≢ 0
    → h.chunk_index < max_chunks
    → IsHeap (extended h size sbrk)
extended-IsHeap h size sbrk v n room = record {
  full_length = length-set h.chunk h.chunk_index fresh ∙ v.full_length;
  in_table = omega arith;
  used = λ j q. elim (ℕ_discrete h.chunk_index j) [
    | yes same ↦ rw (← same) (rw at_end n)
    | no other ↦
        rw (get_or-set_ne h.chunk h.chunk_index j fresh null_chunk other) (v.used j (omega arith))
  ];
  unused = λ j q.
      rw (get_or-set_ne h.chunk h.chunk_index j fresh null_chunk (omega arith))
        (v.unused j (omega arith));
}
  where
    fresh : Chunk
    fresh = record { ptr = sbrk; size = u32 size; is_free = false }

    at_end : entry (set h.chunk h.chunk_index fresh) h.chunk_index ≡ fresh
    at_end = get_or-set_self h.chunk h.chunk_index fresh null_chunk (omega arith)

Result-IsHeap :
    (h h' : Heap) (size sbrk p : ℕ) (r : Option ℕ)
    → IsHeap h
    → sbrk ≢ 0
    → Result h size sbrk r (some (p, h'))
    → IsHeap h'
Result-IsHeap h h' size sbrk p (some i) v n e =
    let same : h' ≡ reused h i size = cc in
    rw same (set-IsHeap h i (record (entry h.chunk i) { is_free = false; size = u32 size }) refl v)
Result-IsHeap h h' size sbrk p none v n (inl (room, e)) =
    let same : h' ≡ extended h size sbrk = cc in rw same (extended-IsHeap h size sbrk v n room)
Result-IsHeap h h' size sbrk p none v n (inr (full, e)) = absurd (ground arith)

-- `good_malloc` keeps the invariant, when `sbrk` gives an address other than null.
pub good_malloc-IsHeap :
    (h h' : Heap) (size sbrk p : ℕ)
    → IsHeap h
    → sbrk ≢ 0
    → good_malloc h size sbrk ≡ some (p, h')
    → IsHeap h'
good_malloc-IsHeap h h' size sbrk p v n e =
    let (r, first, res) = good_malloc_lem h size sbrk v in
    Result-IsHeap h h' size sbrk p r v n (rw e at res)

Result-total_allocated :
    (h h' : Heap) (size sbrk p : ℕ) (r : Option ℕ)
    → Result h size sbrk r (some (p, h'))
    → h'.total_allocated ≡ h.total_allocated
Result-total_allocated h h' size sbrk p (some i) e =
    let same : h' ≡ reused h i size = cc in ap (λ (x : Heap). x.total_allocated) same
Result-total_allocated h h' size sbrk p none (inl (room, e)) =
    let same : h' ≡ extended h size sbrk = cc in ap (λ (x : Heap). x.total_allocated) same
Result-total_allocated h h' size sbrk p none (inr (full, e)) = absurd (ground arith)

pub good_malloc-total_allocated :
    (h h' : Heap) (size sbrk p : ℕ)
    → IsHeap h
    → good_malloc h size sbrk ≡ some (p, h')
    → h'.total_allocated ≡ h.total_allocated
good_malloc-total_allocated h h' size sbrk p v e =
    let (r, first, res) = good_malloc_lem h size sbrk v in
    Result-total_allocated h h' size sbrk p r (rw e at res)
