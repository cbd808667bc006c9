-- ===== src/Virtio/Queue/Rings.antt =====
-- kernel/drivers/virtio/virtio.c: what goes into the available ring, and what comes out of the used
-- ring.
use sol_os.Base.{
  ℕ, zero, suc, ◌+◌, ◌-◌, ◌%◌, ◌^◌, ◌<◌, ◌≡◌, refl, Bool, none, some, List, [], ◌∷◌, map, arith,
  if◌then◌else◌,
}
use sol_os.Virtio.Queue.{
  Desc, UsedElem, Vq, put, wrap16, alloc_desc, desc_fill, submit, add_buffer_id, pop_used,
}
use sol_os.Virtio.Queue.Pool.{Pool, Chain-put}

-- A buffer is added when the pool is not empty and its first descriptor has a number below the size of
-- the queue: that descriptor leaves the pool, describes the buffer, stands in the slot of the
-- available ring that the old index names, and both indices, the published one too, move on by one.
pub add_buffer_id_lem :
    (q : Vq) (id : ℕ) (ids : List ℕ) (phys len : ℕ) (w : Bool)
    → Pool q (id ∷ ids)
    → id < q.queue_size
    → (q' : Vq) × (add_buffer_id q phys len w ≡ some (id, q'))
      × Pool q' ids
      × (q'.desc id ≡ record { addr = phys; len = len; flags = if w then 2 else 0; next = 0 })
      × (q'.avail_ring (q.avail_idx % q.queue_size) ≡ id)
      × (q'.avail_pub ≡ wrap16 (q.avail_idx + 1))
      × (q'.avail_idx ≡ wrap16 (q.avail_idx + 1))
      × (q'.queue_size ≡ q.queue_size)
unfolding add_buffer_id alloc_desc desc_fill submit
add_buffer_id_lem q id ids phys len w p l =
    let e : Desc = record { addr = phys; len = len; flags = if w then 2 else 0; next = 0 } in
    let q' : Vq = record q {
      free_head = (q.desc id).next;
      free_count = q.free_count - 1;
      desc = put q.desc id e;
      avail_ring = put q.avail_ring (q.avail_idx % q.queue_size) id;
      avail_idx = wrap16 (q.avail_idx + 1);
      avail_pub = wrap16 (q.avail_idx + 1);
    } in
    (
      q',
      ground (arith, p.counted, p.chain.0),
      record {
        chain = Chain-put q.desc id e (q.desc id).next ids p.distinct.0 p.chain.1;
        counted = omega (arith, p.counted);
        distinct = p.distinct.1;
      },
      ground arith,
      ground arith,
      refl,
      refl,
      refl,
    )

-- What the device has put into the used ring and the driver has not taken yet, `n` elements from
-- index `u` on.
abbrev pub pending : (ℕ → UsedElem) → ℕ → ℕ → ℕ → List UsedElem
pending ring size u zero = []
pending ring size u (suc n) = ring (u % size) ∷ pending ring size (wrap16 (u + 1)) n

-- How many elements the device is ahead.
abbrev pub ahead : Vq → ℕ
ahead q = wrap16 (q.used_pub + 2 ^ 16 - q.used_idx)

-- Takes used elements until there is none, with fuel.
unfoldable pub drain : ℕ → Vq → List (ℕ × ℕ)
drain zero q = []
drain (suc f) q = elim (pop_used q) [ none ↦ [] | some (id, len, q') ↦ (id, len) ∷ drain f q' ]

-- A driver that takes used elements until there is none gets exactly those that the device is ahead
-- by, in order, also across the wrap of the indices.
pub drain_lem :
    (n : ℕ) (q : Vq)
    → q.used_idx < 2 ^ 16
    → q.used_pub < 2 ^ 16
    → ahead q ≡ n
    → drain (suc n) q
      ≡ map (λ (e : UsedElem). (wrap16 e.id, e.len)) (pending q.used_ring q.queue_size q.used_idx n)
unfolding drain pop_used
drain_lem zero q h k e = ground arith
drain_lem (suc n) q h k e =
    let q' : Vq = record q { used_idx = wrap16 (q.used_idx + 1) } in
    ground (arith, drain_lem n q' (omega arith) k (omega arith))
