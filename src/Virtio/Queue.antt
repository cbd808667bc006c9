-- ===== src/Virtio/Queue.antt =====
-- kernel/drivers/virtio/virtio.c: one virtqueue. The rings are read and written by index, and
-- uint16_t counters wrap at 65536. The calls below take the queue of an index that the driver has
-- checked against VIRTIO_MAX_QUEUES.
pub mod Pool
pub mod Rings
pub mod Beyond
pub mod Init
mod Tests
use sol_os.Base.{
  ℕ, zero, suc, ◌+◌, ◌-◌, ◌%◌, ◌^◌, Bool, Option, none, some, ltb, leb, ◌==◌, if◌then◌else◌,
}

pub record Desc : Type 0 where
  pub addr : ℕ
  pub len : ℕ
  pub flags : ℕ
  pub next : ℕ

pub record UsedElem : Type 0 where
  pub id : ℕ
  pub len : ℕ

-- `struct virtio_vq` with the memory behind its pointers: `avail_pub` is `avail->idx`, `used_pub` is
-- `used->idx`, which the device writes.
pub record Vq : Type 0 where
  pub queue_size : ℕ
  pub free_head : ℕ
  pub free_count : ℕ
  pub avail_idx : ℕ
  pub used_idx : ℕ
  pub desc : ℕ → Desc
  pub avail_ring : ℕ → ℕ
  pub avail_pub : ℕ
  pub used_ring : ℕ → UsedElem
  pub used_pub : ℕ

abbrev pub wrap16 : ℕ → ℕ
wrap16 n = n % 2 ^ 16

abbrev pub put {ℓ} : {A : Type ℓ} → (ℕ → A) → ℕ → A → ℕ → A
put f i v j = if i == j then v else f j

-- `none` is the result -1.
unfoldable pub alloc_desc : Vq → Option (ℕ × Vq)
alloc_desc q =
    if q.free_count == 0
    then none
    else some (
      q.free_head,
      record q { free_head = (q.desc q.free_head).next; free_count = q.free_count - 1 },
    )

unfoldable pub desc_fill : Vq → ℕ → ℕ → ℕ → Bool → Vq
desc_fill q id phys len device_writes = if leb q.queue_size id then q else record q {
  desc =
      put q.desc id
        (record { addr = phys; len = len; flags = if device_writes then 2 else 0; next = 0 });
}

unfoldable pub submit : Vq → ℕ → Vq
submit q id =
    if leb q.queue_size id
    then q
    else let idx = wrap16 (q.avail_idx + 1) in
      record q {
        avail_ring = put q.avail_ring (q.avail_idx % q.queue_size) id;
        avail_idx = idx;
        avail_pub = idx;
      }

-- virtio_queue_recycle has the same body as virtio_queue_submit.
unfoldable pub recycle : Vq → ℕ → Vq
unfolding submit
recycle q id =
    if leb q.queue_size id
    then q
    else let idx = wrap16 (q.avail_idx + 1) in
      record q {
        avail_ring = put q.avail_ring (q.avail_idx % q.queue_size) id;
        avail_idx = idx;
        avail_pub = idx;
      }

unfoldable pub free_desc : Vq → ℕ → Vq
free_desc q id = if leb q.queue_size id then q else record q {
  desc = put q.desc id (record (q.desc id) { next = q.free_head });
  free_head = id;
  free_count = wrap16 (q.free_count + 1);
}

unfoldable pub add_buffer_id : Vq → ℕ → ℕ → Bool → Option (ℕ × Vq)
add_buffer_id q phys len device_writes = elim (alloc_desc q) [
  | none ↦ none
  | some (id, q') ↦ some (id, submit (desc_fill q' id phys len device_writes) id)
]

-- The descriptor and the length of the next used element, if the device has moved on.
unfoldable pub pop_used : Vq → Option (ℕ × ℕ × Vq)
pop_used q =
    if q.used_idx == q.used_pub
    then none
    else let e = q.used_ring (q.used_idx % q.queue_size) in
      some (wrap16 e.id, e.len, record q { used_idx = wrap16 (q.used_idx + 1) })

-- "Link every descriptor into the free pool": `next` of the `n` descriptors from `i` on.
unfoldable pub link_from : ℕ → ℕ → (ℕ → Desc) → ℕ → Desc
link_from zero i d = d
link_from (suc n) i d = link_from n (i + 1) (put d i (record (d i) { next = wrap16 (i + 1) }))

unfoldable pub link_all : ℕ → (ℕ → Desc) → ℕ → Desc
unfolding link_from
link_all size d =
    let linked : ℕ → Desc = link_from size 0 d in
    put linked (size - 1) (record (linked (size - 1)) { next = 0 })

abbrev pub max_queue_size : ℕ
max_queue_size = 256

-- The software state that virtio_queue_init_one sets up for a queue of `size` descriptors, when the
-- device then reports `accepted`.
unfoldable pub setup : ℕ → ℕ → Vq → Vq
unfolding link_all
setup size accepted q = record q {
  queue_size = if ltb accepted size then accepted else size;
  desc = link_all size q.desc;
  free_head = 0;
  free_count = size;
  avail_idx = 0;
  used_idx = 0;
  avail_pub = 0;
  used_pub = 0;
}
