-- ===== src/Mm/Heap/Tests.antt =====
-- kernel/mm/kheap.c: the theorems on concrete heaps.
use sol_os.Base.{ℕ, ◌+◌, ◌*◌, ◌%◌, ◌^◌, ◌≤◌, ◌<◌, ◌≡◌, refl, true, false, some, [], ◌∷◌, arith, All}
use sol_os.Mm.Heap.{Heap, HeapBlock, one_block, kmalloc, kcalloc}
use sol_os.Mm.Heap.Fit.{Chain, FirstFit, Taken, Allocated}
use sol_os.Mm.Heap.Sizes.{kmalloc_lem, sizes_wrap}

abbrev no_block : HeapBlock
no_block = record { size = 0; magic = 0; free = false; prev = 0; next = 0 }

abbrev heap : Heap
heap = one_block 4096 (λ i. no_block)

heap-Chain : Chain heap.blocks heap.head (4096 ∷ [])
unfolding one_block
heap-Chain = (refl, λ e. omega arith, refl)

heap_free : (heap.blocks 4096).free ≡ true
unfolding one_block
heap_free = refl

some_free : ¬ All (λ c. (heap.blocks c).free ≡ false) (4096 ∷ [])
some_free u = ground (arith, heap_free, u.0)

kmalloc_lem_example :
    (need : ℕ) × (100 ≤ need)
    × (need < 116)
    × (need % 16 ≡ 0)
    × Allocated heap (4096 ∷ []) need (kmalloc heap 100)
kmalloc_lem_example =
    kmalloc_lem heap (4096 ∷ []) 100 heap-Chain (omega arith) (omega arith) (omega arith)

sizes_wrap_example :
    ((b : ℕ) × FirstFit heap.blocks 0 (4096 ∷ []) (some b)
      × ((kmalloc heap 18446744073709551615).1 ≡ b + 32)
      × Taken heap.blocks b 0 (kmalloc heap 18446744073709551615).0.blocks)
    × ((need : ℕ) × (need < 4294967297 * 4294967296 % 2 ^ 64 + 16)
        × Allocated heap (4096 ∷ []) need (
          (kcalloc heap (λ i. 0) 4294967297 4294967296).0,
          (kcalloc heap (λ i. 0) 4294967297 4294967296).2,
        ))
sizes_wrap_example =
    sizes_wrap heap (4096 ∷ []) (λ i. 0) 18446744073709551615 4294967297 4294967296 heap-Chain
      (omega arith) (omega arith) (omega arith) some_free (omega arith) (omega arith) (omega arith)
