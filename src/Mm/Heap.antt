-- ===== src/Mm/Heap.antt =====
-- kernel/mm/kheap.c: the kernel heap, at the level of its block headers in memory.
pub mod Fit
pub mod Sizes
mod Tests
use sol_os.Base.{
  ℕ, zero, suc, ◌+◌, ◌-◌, ◌*◌, ◌/◌, ◌%◌, ◌^◌, Bool, true, false, ◌&&◌, ◌||◌, not, Option, none,
  some, leb, ◌==◌, if◌then◌else◌,
}
use sol_os.Libc.{Memory, memset}

-- `struct heap_block`. A pointer is an address, and NULL is 0. The sizes of the blocks of a heap add
-- up to less than its 96 MiB, so the sums of sizes below have no wrap.
pub record HeapBlock : Type 0 where
  pub size : ℕ
  pub magic : ℕ
  pub free : Bool
  pub prev : ℕ
  pub next : ℕ

-- `blocks` is the header at an address, `head` is `kheap_head`.
pub record Heap : Type 0 where
  pub head : ℕ
  pub blocks : ℕ → HeapBlock

abbrev pub heap_magic : ℕ
heap_magic = 0x48454150

abbrev pub heap_min_block : ℕ
heap_min_block = 16

-- 32 bytes: the header, on a 16-byte boundary
abbrev pub block_header_size : ℕ
block_header_size = 32

abbrev pub kheap_size : ℕ
kheap_size = 96 * 1024 * 1024

-- A block takes a header at least, so no chain is longer.
abbrev pub max_blocks : ℕ
max_blocks = kheap_size / block_header_size

-- `(n + 15u) & ~(size_t)15u`, on `size_t`
unfoldable pub align16 : ℕ → ℕ
align16 n = (n + 15) % 2 ^ 64 / 16 * 16

abbrev pub put : (ℕ → HeapBlock) → ℕ → HeapBlock → ℕ → HeapBlock
put m a b i = if i == a then b else m i

-- One free block that covers the heap.
unfoldable pub one_block : ℕ → (ℕ → HeapBlock) → Heap
one_block base m = record {
  head = base;
  blocks = put m base (record {
    size = kheap_size - block_header_size;
    magic = heap_magic;
    free = true;
    prev = 0;
    next = 0;
  });
}

-- The test of the loop of `kmalloc`.
abbrev pub fits : HeapBlock → ℕ → Bool
fits b size = b.free && leb size b.size

-- The first block from `b` on that is free and large enough, in a walk of `n` blocks. The code's loop
-- does not end on a chain that runs in a circle; the theorems are about chains that end.
unfoldable pub find_fit : ℕ → (ℕ → HeapBlock) → ℕ → ℕ → Option ℕ
find_fit zero m b size = none
find_fit (suc n) m b size = elim (b == 0) [
  | true ↦ none
  | false ↦ elim (fits (m b) size) [ true ↦ some b | false ↦ find_fit n m (m b).next size ]
]

-- `if (p != NULL) p->prev = v`
abbrev pub set_prev : (ℕ → HeapBlock) → ℕ → ℕ → ℕ → HeapBlock
set_prev m p v = if p == 0 then m else put m p (record (m p) { prev = v })

-- The block behind the `size` bytes that an allocation takes from `b`.
unfoldable pub split : (ℕ → HeapBlock) → ℕ → ℕ → ℕ → HeapBlock
split m b size =
    let nb = b + block_header_size + size in
    let m1 = put m nb (record {
      size = (m b).size - size - block_header_size;
      magic = heap_magic;
      free = true;
      prev = b;
      next = (m b).next;
    }) in
    let m2 = set_prev m1 (m1 b).next nb in put m2 b (record (m2 b) { next = nb; size = size })

unfoldable pub take_block : (ℕ → HeapBlock) → ℕ → ℕ → ℕ → HeapBlock
unfolding split
take_block m b size =
    let m' =
      if leb (size + block_header_size + heap_min_block) (m b).size then split m b size else m in
    put m' b (record (m' b) { free = false })

-- On a size that `align16` has rounded.
unfoldable pub kmalloc_aligned : Heap → ℕ → Heap × ℕ
unfolding find_fit take_block
kmalloc_aligned h size = elim (find_fit max_blocks h.blocks h.head size) [
  | none ↦ (h, 0)
  | some b ↦ (record h { blocks = take_block h.blocks b size }, b + block_header_size)
]

-- The address of the payload, or 0.
unfoldable pub kmalloc : Heap → ℕ → Heap × ℕ
unfolding kmalloc_aligned align16
kmalloc h size = if size == 0 then (h, 0) else kmalloc_aligned h (align16 size)

-- `n * size` on `size_t`; the payload is set to 0 in `mem`.
unfoldable pub kcalloc : Heap → Memory → ℕ → ℕ → Heap × Memory × ℕ
unfolding kmalloc
kcalloc h mem n size =
    let bytes = n * size % 2 ^ 64 in
    let r = kmalloc h bytes in
    if n == 0 || (size == 0)
    then (h, mem, 0)
    else if r.1 == 0
    then (r.0, mem, 0)
    else (r.0, memset mem r.1 0 bytes, r.1)

-- Coalesce with a free predecessor: the memory, and the block that goes on.
unfoldable pub merge_prev : (ℕ → HeapBlock) → ℕ → (ℕ → HeapBlock) × ℕ
merge_prev m b =
    let p = (m b).prev in
    let m1 =
      put m p
        (record (m p) { size = (m p).size + block_header_size + (m b).size; next = (m b).next }) in
    if not (p == 0) && (m p).free then (set_prev m1 (m1 b).next (m1 b).prev, p) else (m, b)

-- Coalesce with a free successor.
unfoldable pub merge_next : (ℕ → HeapBlock) → ℕ → ℕ → HeapBlock
merge_next m b =
    let s = (m b).next in
    let m1 =
      put m b
        (record (m b) { size = (m b).size + block_header_size + (m s).size; next = (m s).next }) in
    if not (s == 0) && (m s).free then set_prev m1 (m s).next b else m

unfoldable pub kfree : Heap → ℕ → Heap
unfolding merge_prev merge_next
kfree h ptr =
    let b = (ptr + 2 ^ 64 - block_header_size) % 2 ^ 64 in
    let m = put h.blocks b (record (h.blocks b) { free = true }) in
    let r = merge_prev m b in
    if ptr == 0
    then h
    else if not ((h.blocks b).magic == heap_magic) || (h.blocks b).free
    then h
    else record h { blocks = merge_next r.0 r.1 }

-- The payload bytes of the blocks whose flag is `flag`, in a walk of `n` blocks.
unfoldable pub sum_bytes : ℕ → Bool → (ℕ → HeapBlock) → ℕ → ℕ
sum_bytes zero flag m b = 0
sum_bytes (suc n) flag m b = elim (b == 0) [
  | true ↦ 0
  | false ↦
      let rest = sum_bytes n flag m (m b).next in
      if (if flag then (m b).free else not (m b).free) then ((m b).size + rest) % 2 ^ 64 else rest
]

unfoldable pub kheap_free_bytes : Heap → ℕ
unfolding sum_bytes
kheap_free_bytes h = sum_bytes max_blocks true h.blocks h.head

unfoldable pub kheap_used_bytes : Heap → ℕ
unfolding sum_bytes
kheap_used_bytes h = sum_bytes max_blocks false h.blocks h.head
