-- ===== src/Virtio/Queue/Beyond.antt =====
-- kernel/drivers/virtio/virtio.c: a queue that the device made smaller.
use sol_os.Base.{
  subst, ℕ, zero, suc, ◌+◌, ◌-◌, ◌≤◌, ◌<◌, ◌≡◌, refl, ap, ◌∙◌, Bool, Option, none, some, List, ◌∷◌,
  arith,
}
use sol_os.Virtio.Queue.{Vq, setup, add_buffer_id, alloc_desc, desc_fill, submit}
use sol_os.Virtio.Queue.Pool.{Pool}
use sol_os.Virtio.Queue.Init.{range, setup_lem}
use sol_os.Virtio.Queue.Rings.{add_buffer_id_lem}

-- Adds `n` buffers one after the other.
unfoldable pub add_buffers : ℕ → Vq → ℕ → ℕ → Bool → Option Vq
add_buffers zero q phys len w = some q
add_buffers (suc n) q phys len w = elim (add_buffer_id q phys len w) [
  | none ↦ none
  | some (id, q') ↦ add_buffers n q' phys len w
]

-- `n` more buffers go into the descriptors from `i` on, where they are inside the queue.
add_buffers_lem :
    (n i k : ℕ) (q : Vq) (phys len : ℕ) (w : Bool)
    → Pool q (range i (n + k))
    → i + n ≤ q.queue_size
    → i + n < 65536
    → q.avail_idx ≡ i
    → q.avail_pub ≡ i
    → (q' : Vq) × (add_buffers n q phys len w ≡ some q')
      × Pool q' (range (i + n) k)
      × (q'.queue_size ≡ q.queue_size)
      × (q'.avail_idx ≡ i + n)
      × (q'.avail_pub ≡ i + n)
unfolding add_buffers
add_buffers_lem zero i k q phys len w p l small e f =
    let same : i + 0 ≡ i = omega arith in
    let more : 0 + k ≡ k = omega arith in
    (q, refl, rw same (subst (λ t. Pool q (range i t)) more p), refl, rw same e, rw same f)
add_buffers_lem (suc n) i k q phys len w p l small e f =
    let more : suc n + k ≡ suc (n + k) = omega arith in
    let a =
      add_buffer_id_lem q i (range (i + 1) (n + k)) phys len w
        (subst (λ t. Pool q (range i t)) more p) (omega arith) in
    let q1 = a.0 in
    let rest =
      add_buffers_lem n (i + 1) k q1 phys len w a.2 (omega (arith, a.7)) (omega arith)
        (omega (arith, a.6)) (omega (arith, a.5)) in
    let on : i + 1 + n ≡ i + suc n = omega arith in
    (
      rest.0,
      ap {A = Option (ℕ × Vq)}
            (λ o. elim o as (λ x. Option Vq) [
              | none ↦ none
              | some (id, q') ↦ add_buffers n q' phys len w
            ])
            a.1
          ∙ rest.1,
      subst (λ t. Pool rest.0 (range t k)) on rest.2,
      rest.3 ∙ a.7,
      rest.4 ∙ on,
      rest.5 ∙ on,
    )

-- A buffer for a descriptor outside the queue is dropped.
dropped :
    (q : Vq) (ids : List ℕ) (id phys len : ℕ) (w : Bool)
    → Pool q (id ∷ ids)
    → q.queue_size ≤ id
    → (q' : Vq) × (add_buffer_id q phys len w ≡ some (id, q'))
      × (q'.avail_pub ≡ q.avail_pub)
      × (q'.avail_ring ≡ q.avail_ring)
      × (q'.desc ≡ q.desc)
      × Pool q' ids
unfolding add_buffer_id alloc_desc desc_fill submit
dropped q ids id phys len w p out = (
  record q { free_head = (q.desc id).next; free_count = q.free_count - 1 },
  ground (arith, p.counted, p.chain.0),
  refl,
  refl,
  refl,
  record { chain = p.chain.1; counted = omega (arith, p.counted); distinct = p.distinct.1 },
)

setup-fields :
    (size accepted : ℕ) (q : Vq)
    → accepted < size
    → let q0 = setup size accepted q in
      (q0.queue_size ≡ accepted) × (q0.avail_idx ≡ 0) × (q0.avail_pub ≡ 0)
unfolding setup
setup-fields size accepted q l = (ground arith, refl, refl)

-- When the device accepts fewer descriptors than virtio_queue_init_one linked, as many buffers can be
-- added as it accepted; then the pool is not empty, and virtio_queue_add_buffer_id reports success
-- with a descriptor outside the queue that is neither filled nor made available, and is lost to the
-- pool.
pub add_buffer_id_beyond :
    (size accepted : ℕ) (q : Vq) (phys len : ℕ) (w : Bool)
    → size < 65536
    → accepted < size
    → (q1 : Vq) × (q2 : Vq) × (add_buffers accepted (setup size accepted q) phys len w ≡ some q1)
      × (q1.avail_pub ≡ accepted)
      × (add_buffer_id q1 phys len w ≡ some (accepted, q2))
      × (q2.avail_pub ≡ accepted)
      × (q2.avail_ring ≡ q1.avail_ring)
      × (q2.desc ≡ q1.desc)
      × Pool q1 (range accepted (size - accepted))
      × Pool q2 (range (accepted + 1) (size - accepted - 1))
add_buffer_id_beyond size accepted q phys len w small fewer =
    let q0 = setup size accepted q in
    let whole : size ≡ accepted + (size - accepted) = omega arith in
    let p : Pool q0 (range 0 (accepted + (size - accepted))) =
      subst (λ t. Pool q0 (range 0 t)) whole (setup_lem size accepted q small) in
    let fields = setup-fields size accepted q fewer in
    let a =
      add_buffers_lem accepted 0 (size - accepted) q0 phys len w p (omega (arith, fields.0))
        (omega arith) fields.1 fields.2 in
    let from : 0 + accepted ≡ accepted = omega arith in
    let left : size - accepted ≡ suc (size - accepted - 1) = omega arith in
    let p1 : Pool a.0 (range accepted (size - accepted)) =
      subst (λ t. Pool a.0 (range t (size - accepted))) from a.2 in
    let d =
      dropped a.0 (range (accepted + 1) (size - accepted - 1)) accepted phys len w
        (subst (λ t. Pool a.0 (range accepted t)) left p1) (omega (arith, a.3, fields.0)) in
    (a.0, d.0, a.1, a.5 ∙ from, d.1, d.2 ∙ a.5 ∙ from, d.3, d.4, p1, d.5)
