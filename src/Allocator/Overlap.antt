-- ===== src/Allocator/Overlap.antt =====
-- Blocks of the allocator that overlap (les12_malloc/src/main.c).
use summer_school.Base.{
  ℕ, ◌+◌, ◌-◌, ◌≤◌, ◌<◌, ◌^◌, ◌≡◌, ◌≢◌, refl, true, false, Option, none, some, get_or-set_self,
  get_or-set_ne, length, inl, inr, arith, ◌∙◌, ap, sym, ℕ_discrete, u32,
}
use summer_school.Allocator.{Chunk, Heap, max_chunks, good_malloc, good_free}
use summer_school.Allocator.Table.{null_chunk, entry, IsHeap, Fits, IsFirstFit}
use summer_school.Allocator.Malloc.{
  good_malloc_lem, good_malloc-IsHeap, reused, extended, Result, extended-IsHeap,
}
use summer_school.Allocator.Free.{last_freed, good_free_lem, good_free-IsHeap}

-- Every entry in use is taken.
abbrev pub AllTaken : Heap → Type 0
AllTaken h = (i : ℕ) → i < h.chunk_index → (entry h.chunk i).is_free ≡ false

-- Two entries in use, the second of which begins inside the recorded block of the first.
pub record Overlap (h : Heap) (i j : ℕ) : Type 0 where
  pub taken : ((entry h.chunk i).is_free ≡ false) × ((entry h.chunk j).is_free ≡ false)
  pub in_use : (i < h.chunk_index) × (j < h.chunk_index)
  pub inside :
      ((entry h.chunk i).ptr ≤ (entry h.chunk j).ptr)
      × ((entry h.chunk j).ptr < (entry h.chunk i).ptr + (entry h.chunk i).size)

-- With no free entry and room in the table, `good_malloc` extends the table.
pub malloc_new :
    (h : Heap) (size sbrk : ℕ)
    → IsHeap h
    → AllTaken h
    → h.chunk_index < max_chunks
    → good_malloc h size sbrk ≡ some (sbrk, extended h size sbrk)
malloc_new h size sbrk v t room = by_result (good_malloc_lem h size sbrk v)
  where
    by_result :
        ((r : Option ℕ) × IsFirstFit h.chunk size 0 h.chunk_index r
          × Result h size sbrk r (good_malloc h size sbrk))
        → good_malloc h size sbrk ≡ some (sbrk, extended h size sbrk)
    by_result (none, first, inl (_, e)) = e
    by_result (none, first, inr (full, e)) = absurd (omega arith)
    by_result (some i, first, e) = absurd (ground (arith, t i first.1))

-- With the last entry free and large enough for the test, and all others taken, it is reused.
malloc_reuse :
    (h : Heap) (n size sbrk : ℕ)
    → IsHeap h
    → h.chunk_index ≡ n + 1
    → ((i : ℕ) → i < n → (entry h.chunk i).is_free ≡ false)
    → Fits h.chunk size n
    → good_malloc h size sbrk ≡ some ((entry h.chunk n).ptr, reused h n size)
malloc_reuse h n size sbrk v e t f = by_result (good_malloc_lem h size sbrk v)
  where
    by_result :
        ((r : Option ℕ) × IsFirstFit h.chunk size 0 h.chunk_index r
          × Result h size sbrk r (good_malloc h size sbrk))
        → good_malloc h size sbrk ≡ some ((entry h.chunk n).ptr, reused h n size)
    by_result (none, first, _) = absurd (first n (omega arith) (omega arith) f)
    by_result (some i, first, run) = elim (ℕ_discrete i n) [
      | yes same ↦ rw (← same) run
      | no other ↦ absurd (ground (arith, t i (omega arith)))
    ]

-- The entries after each of the three changes of the table.
extended-entry :
    (h : Heap) (size p i : ℕ)
    → i ≢ h.chunk_index
    → entry (extended h size p).chunk i ≡ entry h.chunk i
extended-entry h size p i d = get_or-set_ne h.chunk h.chunk_index i _ null_chunk (λ e. d (sym e))

extended-entry_self :
    (h : Heap) (size p : ℕ)
    → h.chunk_index < length h.chunk
    → entry (extended h size p).chunk h.chunk_index
      ≡ record { ptr = p; size = u32 size; is_free = false }
extended-entry_self h size p l = get_or-set_self h.chunk h.chunk_index _ null_chunk l

freed-entry :
    (h : Heap) (k i : ℕ)
    → h.chunk_index ≡ k + 1
    → i ≢ k
    → entry (last_freed h).chunk i ≡ entry h.chunk i
freed-entry h k i e d =
    get_or-set_ne h.chunk (h.chunk_index - 1) i _ null_chunk (λ same. d (omega arith))

freed-entry_self :
    (h : Heap) (k : ℕ)
    → h.chunk_index ≡ k + 1
    → k < length h.chunk
    → entry (last_freed h).chunk k ≡ record (entry h.chunk k) { is_free = true }
freed-entry_self h k e l =
    let prev : h.chunk_index - 1 ≡ k = omega arith in
    rw prev (get_or-set_self h.chunk k _ null_chunk l)

reused-entry : (h : Heap) (n size i : ℕ) → i ≢ n → entry (reused h n size).chunk i ≡ entry h.chunk i
reused-entry h n size i d = get_or-set_ne h.chunk n i _ null_chunk (λ e. d (sym e))

reused-entry_self :
    (h : Heap) (n size : ℕ)
    → n < length h.chunk
    → entry (reused h n size).chunk n
      ≡ record (entry h.chunk n) { is_free = false; size = u32 size }
reused-entry_self h n size l = get_or-set_self h.chunk n _ null_chunk l

-- A block of `s` bytes is taken at `b`, freed by any pointer `p`, and asked for again with `t`
-- bytes, more than it has; then `u` bytes are asked for, at the break, which is still `b + s`.
module _ (h : Heap) (s t u b p : ℕ) (v : IsHeap h) (taken : AllTaken h)
    (room : h.chunk_index + 1 < max_chunks) (more : s < t) (int : t < 2 ^ 31) (real : b ≢ 0)
    (ptr : p ≢ 0) where
  abbrev n : ℕ
  n = h.chunk_index

  abbrev h₁ : Heap
  h₁ = extended h s b

  abbrev h₂ : Heap
  h₂ = last_freed h₁

  abbrev h₃ : Heap
  h₃ = reused h₂ n t

  abbrev h₄ : Heap
  h₄ = extended h₃ u (b + s)

  v₁ : IsHeap h₁
  v₁ = extended-IsHeap h s b v real (omega arith)

  run₁ : good_malloc h s b ≡ some (b, h₁)
  run₁ = malloc_new h s b v taken (omega arith)

  run₂ : good_free h₁ p ≡ some (none, h₂)
  run₂ = good_free_lem h₁ p v₁ ptr (omega arith) (omega arith)

  v₂ : IsHeap h₂
  v₂ = (good_free-IsHeap h₁ h₂ p none v₁ run₂).0

  entry₂ : entry h₂.chunk n ≡ record { ptr = b; size = u32 s; is_free = true }
  entry₂ =
      freed-entry_self h₁ n refl (omega (arith, v₁.full_length))
      ∙ ap (λ (x : Chunk). record x { is_free = true })
          (extended-entry_self h s b (omega (arith, v.full_length)))

  others₂ : (i : ℕ) → i < n → (entry h₂.chunk i).is_free ≡ false
  others₂ i q =
      ap (λ (x : Chunk). x.is_free)
        (freed-entry h₁ n i refl (omega arith) ∙ extended-entry h s b i (omega arith))
      ∙ taken i q

  fits : Fits h₂.chunk t n
  fits = rw entry₂ (refl, ground arith)

  run₃ : (c : ℕ) → good_malloc h₂ t c ≡ some (b, h₃)
  run₃ c = malloc_reuse h₂ n t c v₂ refl others₂ fits ∙ ap (λ (x : Chunk). some (x.ptr, h₃)) entry₂

  v₃ : IsHeap h₃
  v₃ = good_malloc-IsHeap h₂ h₃ t b b v₂ real (run₃ b)

  entry₃ : entry h₃.chunk n ≡ record { ptr = b; size = u32 t; is_free = false }
  entry₃ =
      reused-entry_self h₂ n t (omega (arith, v₂.full_length))
      ∙ ap (λ (x : Chunk). record x { is_free = false; size = u32 t }) entry₂

  taken₃ : AllTaken h₃
  taken₃ i q = elim (ℕ_discrete i n) [
    | yes same ↦ rw same (rw entry₃ refl)
    | no other ↦
        ap (λ (x : Chunk). x.is_free) (reused-entry h₂ n t i other) ∙ others₂ i (omega arith)
  ]

  run₄ : good_malloc h₃ u (b + s) ≡ some (b + s, h₄)
  run₄ = malloc_new h₃ u (b + s) v₃ taken₃ (omega arith)

  overlap : Overlap h₄ n (n + 1)
  overlap =
      let first = extended-entry h₃ u (b + s) n (omega arith) ∙ entry₃ in
      let second = extended-entry_self h₃ u (b + s) (omega (arith, v₃.full_length)) in
      record {
        taken = (ap (λ (x : Chunk). x.is_free) first, ap (λ (x : Chunk). x.is_free) second);
        in_use = (omega arith, omega arith);
        inside = rw (first, second) (omega arith);
      }

  -- On a heap that satisfies the invariant, with every entry in use taken and room for two more: `s`
  -- bytes are taken at the break `b`, which is not null, and `good_free` is called with any pointer other
  -- than null; asked for `t` bytes, more than `s` and fewer than 2 ^ 31, `good_malloc` gives the block of
  -- `s` bytes again, and the next call, for which `sbrk` returns the break `b + s`, gives an address
  -- inside it.
  pub good_malloc-Overlap :
      (c : ℕ)
      → (k₁ k₂ k₃ k₄ : Heap) × (good_malloc h s b ≡ some (b, k₁))
        × (good_free k₁ p ≡ some (none, k₂))
        × (good_malloc k₂ t c ≡ some (b, k₃))
        × (good_malloc k₃ u (b + s) ≡ some (b + s, k₄))
        × Overlap k₄ h.chunk_index (h.chunk_index + 1)
  good_malloc-Overlap c = (h₁, h₂, h₃, h₄, run₁, run₂, run₃ c, run₄, overlap)
