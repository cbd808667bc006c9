-- ===== src/Mm/Heap/Sizes.antt =====
-- kernel/mm/kheap.c, kmalloc and kcalloc: the sizes that callers ask for.
use sol_os.Base.{
  subst, ℕ, zero, suc, ◌+◌, ◌*◌, ◌%◌, ◌^◌, ◌≤◌, ◌<◌, ◌≡◌, sym, ap, ◌∙◌, inl, inr, false, ◌||◌, some,
  List, arith, ◌==◌, ==_iff, Bool-cases, if_true, if_false, length, All, All-imp,
}
use sol_os.Libc.{Memory}
use sol_os.Mm.Heap.{Heap, align16, kmalloc, kcalloc, kmalloc_aligned, max_blocks}
use sol_os.Mm.Heap.Fit.{Chain, Unfit, Allocated, kmalloc_aligned_lem, FirstFit, Taken}

align16-le :
    (n : ℕ) → n + 15 < 2 ^ 64 → (n ≤ align16 n) × (align16 n < n + 16) × (align16 n % 16 ≡ 0)
unfolding align16
align16-le n h = (omega arith, omega arith, omega arith)

kmalloc-some : (h : Heap) (size : ℕ) → 0 < size → kmalloc h size ≡ kmalloc_aligned h (align16 size)
unfolding kmalloc
kmalloc-some h size p = ground arith

-- In a heap whose chain ends after at most the blocks there is room for, and for a size from 1
-- to 2^64 - 16: with the size rounded up to a multiple of 16, kmalloc fails and changes nothing
-- exactly where no block of the chain is free and has room; else it takes the first such block,
-- which it splits where a further block fits, and gives the address behind its header.
pub kmalloc_lem :
    (h : Heap) (cs : List ℕ) (size : ℕ)
    → Chain h.blocks h.head cs
    → length cs ≤ max_blocks
    → 0 < size
    → size + 15 < 2 ^ 64
    → (need : ℕ) × (size ≤ need)
      × (need < size + 16)
      × (need % 16 ≡ 0)
      × Allocated h cs need (kmalloc h size)
kmalloc_lem h cs size chain short p l =
    let a = align16-le size l in
    (
      align16 size,
      a.0,
      a.1,
      a.2,
      rw (kmalloc-some h size p) (kmalloc_aligned_lem h cs (align16 size) chain short),
    )

align16-wraps : (n : ℕ) → 2 ^ 64 ≤ n + 15 → n < 2 ^ 64 → align16 n ≡ 0
unfolding align16
align16-wraps n h l = omega arith

both_some : (n size : ℕ) → 2 ^ 64 ≤ n * size → (n == 0 || (size == 0)) ≡ false
both_some zero size a = absurd (omega arith)
both_some (suc n) zero a = absurd (omega arith)
both_some (suc n) (suc k) a = ground arith

kcalloc-kmalloc :
    (h : Heap) (mem : Memory) (n size : ℕ)
    → 2 ^ 64 ≤ n * size
    → let r = kcalloc h mem n size in (r.0, r.2) ≡ kmalloc h (n * size % 2 ^ 64)
unfolding kcalloc
kcalloc-kmalloc h mem n size a =
    let r : Heap × ℕ = kmalloc h (n * size % 2 ^ 64) in
    let some_size = both_some n size a in
    let ends : Heap × Memory × ℕ → Heap × ℕ = λ t. (t.0, t.2) in
    elim (Bool-cases (r.1 == 0)) [
      | inl e ↦
          ap ends (if_false _ _ some_size ∙ if_true _ _ e)
          ∙ ap {B = Heap × ℕ} (λ (v : ℕ). (r.0, v)) (sym ((==_iff r.1 0).0 e))
      | inr e ↦ ap ends (if_false _ _ some_size ∙ if_false _ _ e)
    ]

none_free : (h : Heap) (c : ℕ) → Unfit h.blocks 0 c → (h.blocks c).free ≡ false
none_free h c (inl e) = e
none_free h c (inr l) = absurd (omega arith)

-- Sizes wrap before the heap looks for a block, in a heap whose chain ends after at most the
-- blocks there is room for. For a size above 2^64 - 16, kmalloc treats it as 0 bytes: if some
-- block of the chain is free it takes the first free one and gives its address. For `n * size`
-- of 2^64 or more, kcalloc takes what a block for the product modulo 2^64 needs, where that is
-- from 1 to 2^64 - 16.
pub sizes_wrap :
    (h : Heap) (cs : List ℕ) (mem : Memory) (big n size : ℕ)
    → Chain h.blocks h.head cs
    → length cs ≤ max_blocks
    → 2 ^ 64 ≤ big + 15
    → big < 2 ^ 64
    → ¬ All (λ c. (h.blocks c).free ≡ false) cs
    → 2 ^ 64 ≤ n * size
    → 0 < n * size % 2 ^ 64
    → n * size % 2 ^ 64 + 15 < 2 ^ 64
    → ((b : ℕ) × FirstFit h.blocks 0 cs (some b)
        × ((kmalloc h big).1 ≡ b + 32)
        × Taken h.blocks b 0 (kmalloc h big).0.blocks)
      × ((need : ℕ) × (need < n * size % 2 ^ 64 + 16)
          × Allocated h cs need ((kcalloc h mem n size).0, (kcalloc h mem n size).2))
sizes_wrap h cs mem big n size chain short high low free wraps pos room =
    let huge : kmalloc h big ≡ kmalloc_aligned h 0 =
      kmalloc-some h big (omega arith) ∙ ap (kmalloc_aligned h) (align16-wraps big high low) in
    let product = kmalloc_lem h cs (n * size % 2 ^ 64) chain short pos room in
    (
      rw huge elim (kmalloc_aligned_lem h cs 0 chain short) [
        | inl u ↦ absurd (free (All-imp _ _ (none_free h) cs u.0))
        | inr (b, f, p, q, t) ↦ (b, f, p, t)
      ],
      (
        product.0,
        product.2,
        subst (λ r. Allocated h cs product.0 r) (sym (kcalloc-kmalloc h mem n size wraps))
            product.4,
      ),
    )
