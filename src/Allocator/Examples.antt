-- ===== src/Allocator/Examples.antt =====
-- The allocator on concrete calls (les12_malloc/src/main.c).
use summer_school.Base.{ℕ, ◌+◌, ◌≡◌, refl, Option, none, some, arith}
use summer_school.Allocator.{Heap, initial, blank, good_malloc, good_free}
use summer_school.Allocator.Table.{IsHeap, IsFirstFit, initial-IsHeap}
use summer_school.Allocator.Malloc.{good_malloc_lem, Result, extended, extended-IsHeap}
use summer_school.Allocator.Free.{last_freed, good_free_lem, Reach, start, call, Call, Reach-IsHeap}
use summer_school.Allocator.Overlap.{Overlap, malloc_new, good_malloc-Overlap}

initial-empty : initial.chunk_index ≡ 0
unfolding initial blank
initial-empty = refl

-- After `good_malloc(32)`, with the break at 4096.
one_block : Heap
one_block = extended initial 32 4096

one_block-index : one_block.chunk_index ≡ 1
unfolding one_block initial blank
one_block-index = refl

one_block-IsHeap : IsHeap one_block
unfolding one_block
one_block-IsHeap =
    extended-IsHeap initial 32 4096 initial-IsHeap (omega arith) (omega (arith, initial-empty))

good_malloc_lem_example :
    (r : Option ℕ) × IsFirstFit one_block.chunk 16 0 one_block.chunk_index r
    × Result one_block 16 4128 r (good_malloc one_block 16 4128)
good_malloc_lem_example = good_malloc_lem one_block 16 4128 one_block-IsHeap

good_free_lem_example : good_free one_block 77 ≡ some (none, last_freed one_block)
good_free_lem_example =
    good_free_lem one_block 77 one_block-IsHeap (omega arith) (omega (arith, one_block-index))
      (omega (arith, one_block-index))

one_block-reached : Reach initial one_block
unfolding one_block
one_block-reached = call start (
    Call.malloc 32 4096 4096 (omega arith) (
      malloc_new initial 32 4096 initial-IsHeap (λ i h. absurd (omega (arith, initial-empty)))
        (omega (arith, initial-empty))))

Reach-IsHeap_example : IsHeap one_block × (one_block.total_allocated ≡ initial.total_allocated)
Reach-IsHeap_example = Reach-IsHeap one_block-reached initial-IsHeap

good_malloc-Overlap_example :
    (k₁ k₂ k₃ k₄ : Heap) × (good_malloc initial 32 4096 ≡ some (4096, k₁))
    × (good_free k₁ 4096 ≡ some (none, k₂))
    × (good_malloc k₂ 64 0 ≡ some (4096, k₃))
    × (good_malloc k₃ 8 4128 ≡ some (4128, k₄))
    × Overlap k₄ initial.chunk_index (initial.chunk_index + 1)
good_malloc-Overlap_example =
    good_malloc-Overlap initial 32 64 8 4096 4096 initial-IsHeap
      (λ i h. absurd (omega (arith, initial-empty))) (omega (arith, initial-empty)) (omega arith)
      (omega arith) (omega arith) (omega arith) 0
