-- ===== src/Virtio/Queue/Pool.antt =====
-- kernel/drivers/virtio/virtio.c: the pool of free descriptors, linked through their next fields,
-- is a stack without repetition.
use sol_os.Base.{
  ℕ, ◌-◌, ◌<◌, ◌≡◌, refl, ◌≢◌, ◌⊎◌, inl, inr, Bool, false, none, some, List, [], ◌∷◌, arith, leb,
  Bool-cases, length, All, Distinct,
}
use sol_os.Virtio.Queue.{Desc, Vq, put, alloc_desc, desc_fill, free_desc}

-- The chain of `ids` starts at `head`.
abbrev pub Chain : (ℕ → Desc) → ℕ → List ℕ → Type 0
Chain d head [] = Unit {0}
Chain d head (i ∷ ids) = (head ≡ i) × Chain d (d i).next ids

-- `ids` are the free descriptors, in the order in which they will be handed out.
pub record Pool (q : Vq) (ids : List ℕ) : Type 0 where
  pub chain : Chain q.desc q.free_head ids
  pub counted : q.free_count ≡ length ids
  pub distinct : Distinct ids

-- A write to a descriptor outside the chain leaves the chain alone.
pub Chain-put :
    (d : ℕ → Desc) (i : ℕ) (v : Desc) (head : ℕ) (ids : List ℕ)
    → All (λ j. i ≢ j) ids
    → Chain d head ids
    → Chain (put d i v) head ids
Chain-put d i v head [] ne c = tt
Chain-put d i v head (j ∷ ids) ne c =
    let same : (put d i v j).next ≡ (d j).next = ground arith in
    (c.0, Chain-put d i v (put d i v j).next ids ne.1 (rw same c.1))

-- Allocation takes the first free descriptor off the pool, and fails exactly when there is none.
pub alloc_desc_lem :
    (q : Vq) (ids : List ℕ)
    → Pool q ids
    → ((ids ≡ []) × (alloc_desc q ≡ none))
      ⊎ ((id : ℕ) × (rest : List ℕ) × (q' : Vq) × (ids ≡ id ∷ rest)
          × (alloc_desc q ≡ some (id, q'))
          × Pool q' rest
          × (q'.queue_size ≡ q.queue_size))
unfolding alloc_desc
alloc_desc_lem q [] p = inl (refl, ground (arith, p.counted))
alloc_desc_lem q (i ∷ rest) p = inr (
  i,
  rest,
  record q { free_head = (q.desc i).next; free_count = q.free_count - 1 },
  refl,
  ground (arith, p.counted, p.chain.0),
  record { chain = p.chain.1; counted = omega (arith, p.counted); distinct = p.distinct.1 },
  refl,
)

-- Filling a descriptor that is not free leaves the pool as it was.
pub desc_fill_lem :
    (q : Vq) (ids : List ℕ) (id phys len : ℕ) (w : Bool)
    → Pool q ids
    → All (λ j. id ≢ j) ids
    → Pool (desc_fill q id phys len w) ids
unfolding desc_fill
desc_fill_lem q ids id phys len w p ne = elim (Bool-cases (leb q.queue_size id)) [
  | inl out ↦ rw (out, desc_fill) p
  | inr ok ↦
      rw (ok, desc_fill)
        (record {
          chain = Chain-put q.desc id _ q.free_head ids ne p.chain;
          counted = p.counted;
          distinct = p.distinct;
        })
]

-- Freeing a descriptor of the queue that is not free puts it on top of the pool.
pub free_desc_lem :
    (q : Vq) (ids : List ℕ) (id : ℕ)
    → Pool q ids
    → id < q.queue_size
    → All (λ j. id ≢ j) ids
    → length ids < 65535
    → Pool (free_desc q id) (id ∷ ids)
unfolding free_desc
free_desc_lem q ids id p l ne small =
    let inside : leb q.queue_size id ≡ false = ground arith in
    let v : Desc = record (q.desc id) { next = q.free_head } in
    let back : (put q.desc id v id).next ≡ q.free_head = ground arith in
    rw (inside, free_desc)
      (record {
        chain = (refl, Chain-put q.desc id v (put q.desc id v id).next ids ne (rw back p.chain));
        counted = omega (arith, p.counted);
        distinct = (ne, p.distinct);
      })
