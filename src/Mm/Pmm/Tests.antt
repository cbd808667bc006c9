-- ===== src/Mm/Pmm/Tests.antt =====
-- kernel/mm/pmm.c on concrete memory: runs of the model, and the theorems at states they apply to.
use sol_os.Base.{ℕ, ◌+◌, ◌*◌, ◌<◌, ◌≡◌, refl, ◌⊎◌, true, false, ◌||◌, List, [], ◌∷◌, arith, ◌==◌}
use sol_os.Mm.Pmm.{Pmm, bitmap_test, bitmap_set, alloc_page, free_page, free_page_count, page_size}
use sol_os.Mm.Pmm.Count.{count_free}
use sol_os.Mm.Pmm.Alloc.{IsValid, alloc_page_lem, alloc_page-IsValid}
use sol_os.Mm.Pmm.Free.{free_page-IsValid, free_page-alloc_page, Restored}
use sol_os.Mm.Pmm.Owner.{System, Inv, alloc, here, next, after_alloc, Reach-Inv}
use sol_os.Mm.Pmm.Init.{Entry, start_used}
use sol_os.Mm.Pmm.Init.Result.{start_used_misses}

-- Pages 0 and 1 of four are in use, and the hint points past the end.
abbrev small : Pmm
small = record {
  present = true;
  bitmap = λ i. 3;
  total_pages = 4;
  first_free_hint = 4;
  free_count = 2;
}

small-IsValid : IsValid small
unfolding count_free bitmap_test
small-IsValid = record { present = refl; hint_in = omega arith; counted = refl; zero_used = refl }

-- The second pass finds page 2.
alloc_small : (alloc_page small).1 ≡ 0x2000
unfolding alloc_page bitmap_test
alloc_small = refl

free_small : free_page_count (free_page (alloc_page small).0 0x2000) ≡ 2
unfolding free_page alloc_page bitmap_test bitmap_set free_page_count
free_small = refl

abbrev Allocates : Pmm → Type 0
Allocates s =
    ((s.free_count ≡ 0) × (alloc_page s ≡ (s, 0)))
    ⊎ ((p : ℕ) × ((alloc_page s).1 ≡ p * page_size)
        × (0 < p)
        × (p < s.total_pages)
        × (bitmap_test s.bitmap p ≡ false)
        × ((q : ℕ) → bitmap_test (alloc_page s).0.bitmap q ≡ (p == q || bitmap_test s.bitmap q))
        × ((alloc_page s).0.free_count + 1 ≡ s.free_count))

alloc_page_lem_example : Allocates small
alloc_page_lem_example = alloc_page_lem small small-IsValid

alloc_page-IsValid_example : IsValid (alloc_page small).0
alloc_page-IsValid_example = alloc_page-IsValid small small-IsValid

free_page-IsValid_example : IsValid (free_page small 0x1000)
free_page-IsValid_example = free_page-IsValid small 0x1000 small-IsValid

free_page-alloc_page_example : Restored small (free_page (alloc_page small).0 (alloc_page small).1)
free_page-alloc_page_example = free_page-alloc_page small small-IsValid

abbrev idle : System
idle = record { pmm = small; owned = [] }

idle-Inv : Inv 2 idle
idle-Inv = record { valid = small-IsValid; held = tt; distinct = tt; conserved = refl }

Reach-Inv_example : Inv 2 (after_alloc (after_alloc idle))
Reach-Inv_example = Reach-Inv 2 (next (next here alloc) alloc) idle-Inv

-- 2 MiB from address 0, and a hole behind.
abbrev machine : List Entry
machine =
    (record { base = 0; extent = 0x200000; usable = true })
    ∷ (record { base = 0x200000; extent = 0x1000; usable = false })
    ∷ []

start_used_misses_example : bitmap_test (start_used 67 (λ i. 5)) 65 ≡ false
unfolding bitmap_test
start_used_misses_example =
    start_used_misses 67 (λ i. 5) 65 (omega arith) (omega arith) (omega arith)
