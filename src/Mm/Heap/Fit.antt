-- ===== src/Mm/Heap/Fit.antt =====
-- kernel/mm/kheap.c, kmalloc: first fit, the split of a block, and what becomes of a size that wraps.
use sol_os.Base.{
  subst, ℕ, zero, suc, ◌+◌, ◌≤◌, ◌<◌, ◌≡◌, refl, sym, ap, ◌∙◌, ◌≢◌, ◌⊎◌, inl, inr, true, false,
  Option, none, some, List, [], ◌∷◌, ◌++◌, arith, leb, ◌==◌, Bool-cases, Option-cases, length, All,
}
use sol_os.Mm.Heap.{HeapBlock, fits, find_fit, take_block, split, Heap, max_blocks, kmalloc_aligned}

-- The blocks `cs` are what `next` leads through from `b` on, up to the null pointer.
abbrev pub Chain : (ℕ → HeapBlock) → ℕ → List ℕ → Type 0
Chain m b [] = b ≡ 0
Chain m b (c ∷ cs) = (b ≡ c) × (c ≢ 0) × Chain m (m c).next cs

-- A free block with room for `need` bytes.
abbrev pub Roomy : (ℕ → HeapBlock) → ℕ → ℕ → Type 0
Roomy m need c = ((m c).free ≡ true) × (need ≤ (m c).size)

-- Used or too small.
abbrev pub Unfit : (ℕ → HeapBlock) → ℕ → ℕ → Type 0
Unfit m need c = ((m c).free ≡ false) ⊎ ((m c).size < need)

-- The first of the blocks `cs` that has room, if there is one.
abbrev pub FirstFit : (ℕ → HeapBlock) → ℕ → List ℕ → Option ℕ → Type 0
FirstFit m need cs none = All (λ c. Unfit m need c) cs
FirstFit m need cs (some b) =
    (xs : List ℕ) × (ys : List ℕ) × (cs ≡ xs ++ (b ∷ ys))
    × All (λ c. Unfit m need c) xs
    × Roomy m need b
    × (b ≢ 0)

passed :
    (m : ℕ → HeapBlock) (need c : ℕ) (cs : List ℕ) (o : Option ℕ)
    → Unfit m need c
    → FirstFit m need cs o
    → FirstFit m need (c ∷ cs) o
passed m need c cs none u f = (u, f)
passed m need c cs (some b) u (xs, ys, e, us, r, z) = (c ∷ xs, ys, ap (λ t. c ∷ t) e, (u, us), r, z)

unfits : (m : ℕ → HeapBlock) (need c : ℕ) → fits (m c) need ≡ false → Unfit m need c
unfits m need c f = elim (Bool-cases (m c).free) [ inl a ↦ inr (ground arith) | inr a ↦ inl a ]

-- In a chain of at most `n` blocks the loop of kmalloc finds the first that has room.
find_fit_lem :
    (n : ℕ) (m : ℕ → HeapBlock) (b need : ℕ) (cs : List ℕ)
    → Chain m b cs
    → length cs ≤ n
    → FirstFit m need cs (find_fit n m b need)
unfolding find_fit
find_fit_lem zero m b need [] h l = tt
find_fit_lem zero m b need (c ∷ cs) h l = absurd (omega arith)
find_fit_lem (suc n) m b need [] h l = let e : (b == 0) ≡ true = ground arith in rw (e, find_fit) tt
find_fit_lem (suc n) m b need (c ∷ cs) (e, z, h) l =
    let some_block : (b == 0) ≡ false = ground arith in
    let rest : Chain m (m b).next cs = subst (λ t. Chain m (m t).next cs) (sym e) h in
    subst (λ t. FirstFit m need (t ∷ cs) (find_fit (suc n) m b need)) e
      elim (Bool-cases (fits (m b) need)) [
        | inl f ↦
            rw (some_block, f, find_fit)
              ([], cs, refl, tt, (ground (arith, f), ground (arith, f)), λ t. z (sym e ∙ t))
        | inr f ↦
            rw (some_block, f, find_fit)
              (passed m need b cs (find_fit n m (m b).next need) (unfits m need b f)
                (find_fit_lem n m (m b).next need cs rest (omega arith)))
      ]

-- Block `b` of `m`, which has room for `need` bytes, is in use in `m'`. It is whole where no further
-- block of 16 bytes would fit behind the bytes; else it has just the bytes, and behind it lies a
-- new free block with all the rest but the 32 bytes of its header, before the old next block.
-- No other block changes, but for the old next one.
abbrev pub Taken : (ℕ → HeapBlock) → ℕ → ℕ → (ℕ → HeapBlock) → Type 0
Taken m b need m' =
    let nb = b + 32 + need in
    ((m' b).free ≡ false)
    × ((((m b).size < need + 48) × ((m' b).size ≡ (m b).size) × ((m' b).next ≡ (m b).next))
        ⊎ ((need + 48 ≤ (m b).size)
            × ((m' b).size ≡ need)
            × ((m' b).next ≡ nb)
            × ((m' nb).free ≡ true)
            × (need + 32 + (m' nb).size ≡ (m b).size)
            × ((m' nb).next ≡ (m b).next)))
    × ((a : ℕ) → a ≢ b → a ≢ nb → a ≢ (m b).next → m' a ≡ m a)

take_block-Taken :
    (m : ℕ → HeapBlock) (b need : ℕ) → need ≤ (m b).size → Taken m b need (take_block m b need)
unfolding take_block split
take_block-Taken m b need h = elim (Bool-cases (leb (need + 48) (m b).size)) [
  | inl l ↦ (ground arith, inr (ground arith), λ a x y z. ground arith)
  | inr l ↦ (ground arith, inl (ground arith), λ a x y z. ground arith)
]

-- What an allocation of `need` bytes makes of a heap with the blocks `cs`: where none of them has room
-- it changes nothing and gives 0; else it takes the first that has, and gives the address behind
-- its header.
abbrev pub Allocated : Heap → List ℕ → ℕ → Heap × ℕ → Type 0
Allocated h cs need r =
    (All (λ c. Unfit h.blocks need c) cs × (r ≡ (h, 0)))
    ⊎ ((b : ℕ) × FirstFit h.blocks need cs (some b)
        × (r.1 ≡ b + 32)
        × (r.0.head ≡ h.head)
        × Taken h.blocks b need r.0.blocks)

pub kmalloc_aligned_lem :
    (h : Heap) (cs : List ℕ) (need : ℕ)
    → Chain h.blocks h.head cs
    → length cs ≤ max_blocks
    → Allocated h cs need (kmalloc_aligned h need)
unfolding kmalloc_aligned
kmalloc_aligned_lem h cs need chain l =
    let f = find_fit_lem max_blocks h.blocks h.head need cs chain l in
    elim (Option-cases (find_fit max_blocks h.blocks h.head need)) [
      | inl e ↦ rw (e, kmalloc_aligned) (inl (subst (λ o. FirstFit h.blocks need cs o) e f, refl))
      | inr (b, e) ↦
          let g = subst (λ o. FirstFit h.blocks need cs o) e f in
          let roomy : Roomy h.blocks need b = g.4 in
          rw (e, kmalloc_aligned) (inr (b, g, refl, refl, take_block-Taken h.blocks b need roomy.1))
    ]
