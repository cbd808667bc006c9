-- ===== src/Virtio/Queue/Tests.antt =====
-- kernel/drivers/virtio/virtio.c on a queue of four.
use sol_os.Base.{ℕ, ◌+◌, ◌≡◌, refl, ◌⊎◌, true, none, some, List, [], ◌∷◌, map, arith}
use sol_os.Virtio.Queue.{UsedElem, Vq, setup, alloc_desc, add_buffer_id, pop_used, wrap16, recycle}
use sol_os.Virtio.Queue.Pool.{Pool, alloc_desc_lem}
use sol_os.Virtio.Queue.Init.{range, setup_lem}
use sol_os.Virtio.Queue.Beyond.{add_buffers, add_buffer_id_beyond}
use sol_os.Virtio.Queue.Rings.{add_buffer_id_lem, drain, drain_lem, pending}

-- Memory that the pages happened to hold.
abbrev raw : Vq
raw = record {
  queue_size = 0;
  free_head = 9;
  free_count = 9;
  avail_idx = 9;
  used_idx = 9;
  desc = λ i. record { addr = 7; len = 7; flags = 7; next = 7 };
  avail_ring = λ i. 7;
  avail_pub = 9;
  used_ring = λ i. record { id = i + 2; len = 60 };
  used_pub = 9;
}

four-Pool : Pool (setup 4 4 raw) (range 0 4)
four-Pool = setup_lem 4 4 raw (omega arith)

-- A buffer goes into descriptor 0, and comes back.
abbrev used_one : Vq
used_one = record raw { queue_size = 4; used_idx = 65535; used_pub = 1 }

drained : drain 5 used_one ≡ (5, 60) ∷ (2, 60) ∷ []
unfolding drain pop_used
drained = refl

recycled : (recycle used_one 3).avail_pub ≡ 10
unfolding recycle
recycled = refl

alloc_desc_lem_example :
    ((range 0 4 ≡ []) × (alloc_desc (setup 4 4 raw) ≡ none))
    ⊎ ((id : ℕ) × (rest : List ℕ) × (q' : Vq) × (range 0 4 ≡ id ∷ rest)
        × (alloc_desc (setup 4 4 raw) ≡ some (id, q'))
        × Pool q' rest
        × (q'.queue_size ≡ (setup 4 4 raw).queue_size))
alloc_desc_lem_example = alloc_desc_lem (setup 4 4 raw) (range 0 4) four-Pool

-- Descriptor 3 alone is free.
abbrev one_left : Vq
one_left = record raw { queue_size = 4; free_head = 3; free_count = 1 }

one_left-Pool : Pool one_left (3 ∷ [])
one_left-Pool = record { chain = (refl, tt); counted = refl; distinct = (tt, tt) }

add_buffer_id_lem_example :
    (q' : Vq) × (add_buffer_id one_left 4096 64 true ≡ some (3, q'))
    × Pool q' []
    × (q'.desc 3 ≡ record { addr = 4096; len = 64; flags = 2; next = 0 })
    × (q'.avail_ring 1 ≡ 3)
    × (q'.avail_pub ≡ 10)
    × (q'.avail_idx ≡ 10)
    × (q'.queue_size ≡ 4)
add_buffer_id_lem_example = add_buffer_id_lem one_left 3 [] 4096 64 true one_left-Pool (omega arith)

-- The device takes two of the four descriptors that were linked.
add_buffer_id_beyond_example :
    (q1 : Vq) × (q2 : Vq) × (add_buffers 2 (setup 4 2 raw) 4096 64 true ≡ some q1)
    × (q1.avail_pub ≡ 2)
    × (add_buffer_id q1 4096 64 true ≡ some (2, q2))
    × (q2.avail_pub ≡ 2)
    × (q2.avail_ring ≡ q1.avail_ring)
    × (q2.desc ≡ q1.desc)
    × Pool q1 (range 2 2)
    × Pool q2 (range 3 1)
add_buffer_id_beyond_example = add_buffer_id_beyond 4 2 raw 4096 64 true (omega arith) (omega arith)

drain_lem_example :
    drain 3 used_one
    ≡ map (λ (e : UsedElem). (wrap16 e.id, e.len)) (pending raw.used_ring 4 65535 2)
drain_lem_example = drain_lem 2 used_one (omega arith) (omega arith) refl
