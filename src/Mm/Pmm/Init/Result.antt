-- ===== src/Mm/Pmm/Init/Result.antt =====
-- kernel/mm/pmm.c, pmm_init: the state that it leaves, and the pages whose bits it never writes.
use sol_os.Base.{ℕ, ◌+◌, ◌-◌, ◌%◌, ◌≤◌, ◌<◌, ◌≡◌, ◌⊎◌, Bool, true, ◌||◌, not, List, arith}
use sol_os.Mm.Pmm.{Bitmap, Pmm, bitmap_test}
use sol_os.Mm.Pmm.Init.{Entry, start_used, build, total_of, bitmap_pages, low_reserve_end}
use sol_os.Mm.Pmm.Init.Loops.{within, covered, start_used-test}

-- The last word of the bitmap is full, or holds at least a byte's worth of pages.
abbrev pub Filled : ℕ → Type 0
Filled total = (total % 64 ≡ 0) ⊎ (8 ≤ total % 64)

-- What is in use after `pmm_init`: the bitmap's pages, the first MiB, and what no usable entry
-- covers.
abbrev pub taken : List Entry → ℕ → ℕ → Bool
taken es start q =
    let total = total_of es in
    within start (bitmap_pages total) q || (within 0 low_reserve_end q || not (covered total es q))

built : List Entry → ℕ → Bitmap → Pmm
built es start m =
    let total = total_of es in
    let r = build es total start m in
    record {
      present = true;
      bitmap = r.0;
      total_pages = total;
      first_free_hint = start + bitmap_pages total;
      free_count = r.1;
    }

-- Where the last word holds fewer than eight pages, "start with every tracked page used" does not
-- reach it: its pages keep the bits that the memory happened to hold.
pub start_used_misses :
    (total : ℕ) (m : Bitmap) (q : ℕ)
    → 0 < total % 64
    → total % 64 < 8
    → total - total % 64 ≤ q
    → bitmap_test (start_used total m) q ≡ bitmap_test m q
start_used_misses total m q pos few l = ground (arith, start_used-test total m q)
