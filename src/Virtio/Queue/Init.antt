-- ===== src/Virtio/Queue/Init.antt =====
-- kernel/drivers/virtio/virtio.c, virtio_queue_init_one: the pool that a new queue starts with.
use sol_os.Base.{
  ℕ, zero, suc, ◌+◌, ◌≤◌, ◌<◌, ◌≡◌, refl, sym, ap, ◌≢◌, ◌&&◌, List, [], ◌∷◌, arith, ltb, leb,
  if◌then◌else◌, length, All, Distinct,
}
use sol_os.Virtio.Queue.{Desc, Vq, put, wrap16, link_from, link_all, setup}
use sol_os.Virtio.Queue.Pool.{Chain, Pool}

-- The numbers from `i` on, `n` of them.
abbrev pub range : ℕ → ℕ → List ℕ
range i zero = []
range i (suc n) = i ∷ range (i + 1) n

length-range : (n i : ℕ) → length (range i n) ≡ n
length-range zero i = refl
length-range (suc n) i = ap suc (length-range n (i + 1))

range-above : (n i k : ℕ) → k < i → All (λ j. k ≢ j) (range i n)
range-above zero i k h = tt
range-above (suc n) i k h = (λ e. omega arith, range-above n (i + 1) k (omega arith))

range-Distinct : (n i : ℕ) → Distinct (range i n)
range-Distinct zero i = tt
range-Distinct (suc n) i = (range-above n (i + 1) i (omega arith), range-Distinct n (i + 1))

Chain-range :
    (n i : ℕ) (d : ℕ → Desc)
    → ((j : ℕ) → i ≤ j → suc j < i + n → (d j).next ≡ j + 1)
    → Chain d i (range i n)
Chain-range zero i d h = tt
Chain-range (suc zero) i d h = (refl, tt)
Chain-range (suc (suc n)) i d h = (
  refl,
  rw (h i (omega arith) (omega arith))
      (Chain-range (suc n) (i + 1) d (λ j l u. h j (omega arith) (omega arith))),
)

next-link_from :
    (n i : ℕ) (d : ℕ → Desc) (j : ℕ)
    → (link_from n i d j).next ≡ (if leb i j && ltb j (i + n) then wrap16 (j + 1) else (d j).next)
unfolding link_from
next-link_from zero i d j = ground arith
next-link_from (suc n) i d j =
    ground (arith, next-link_from n (i + 1) (put d i (record (d i) { next = wrap16 (i + 1) })) j)

next-link_all :
    (size : ℕ) (d : ℕ → Desc) (j : ℕ)
    → size < 65536
    → suc j < size
    → (link_all size d j).next ≡ j + 1
unfolding link_all
next-link_all size d j small l = ground (arith, next-link_from size 0 d j)

-- A new queue has all `size` descriptors in its pool, in order.
pub setup_lem :
    (size accepted : ℕ) (q : Vq) → size < 65536 → Pool (setup size accepted q) (range 0 size)
unfolding setup
setup_lem size accepted q small = record {
  chain =
      Chain-range size 0 (link_all size q.desc)
        (λ j l u. next-link_all size q.desc j small (omega arith));
  counted = sym (length-range size 0);
  distinct = range-Distinct size 0;
}
