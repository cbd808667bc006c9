-- ===== src/Mm/Pmm/Init/Loops.antt =====
-- kernel/mm/pmm.c, pmm_init: what each of its loops does to the tests of the pages and to the count.
use sol_os.Base.{
  ℕ, zero, suc, ◌+◌, ◌-◌, ◌/◌, ◌%◌, ◌^◌, ◌≤◌, ◌<◌, max, ◌≡◌, refl, Bool, false, ◌&&◌, ◌||◌, List,
  [], ◌∷◌, arith, ltb, leb, if◌then◌else◌, bit, bit-zero, bit-complement,
}
use sol_os.Mm.Pmm.{Bitmap, bitmap_test, bitmap_set, bitmap_clear, update, dec64}
use sol_os.Mm.Pmm.Bits.{test-set, test-clear}
use sol_os.Mm.Pmm.Count.{count_free, count_free-set, count_free-clear}
use sol_os.Mm.Pmm.Init.{
  Entry, Counted, fill_words, start_used, free_range, free_entries, reserve_range, start_page,
  end_page, bitmap_bytes,
}

-- `p` is among the `n` pages from `a` on.
abbrev pub within : ℕ → ℕ → ℕ → Bool
within a n p = leb a p && ltb p (a + n)

-- `p` belongs to a usable entry, cut off at `total`.
abbrev pub covered : ℕ → List Entry → ℕ → Bool
covered total [] p = false
covered total (e ∷ es) p =
    (e.usable && within (start_page e) (end_page total e - start_page e) p) || covered total es p

bit-ones : (j : ℕ) → j < 64 → bit (2 ^ 64 - 1) j ≡ 1
bit-ones j h = omega (arith, bit-complement 64 0 j (omega arith) h, bit-zero j)

fill_words-at :
    (n i : ℕ) (m : Bitmap) (j : ℕ) → fill_words n i m j ≡ (if within i n j then 2 ^ 64 - 1 else m j)
unfolding fill_words
fill_words-at zero i m j = ground arith
fill_words-at (suc n) i m j = ground (arith, fill_words-at n (i + 1) (update m i (2 ^ 64 - 1)) j)

-- The pages of the filled words are in use; all others are what the memory held before.
pub start_used-test :
    (total : ℕ) (m : Bitmap) (q : ℕ)
    → bitmap_test (start_used total m) q
      ≡ (ltb (q / 64) ((bitmap_bytes total + 7) / 8) || bitmap_test m q)
unfolding start_used bitmap_test
start_used-test total m q = ground (
  arith,
  fill_words-at ((bitmap_bytes total + 7) / 8) 0 m (q / 64),
  bit-ones (q % 64) (omega arith),
)

pub free_range-test :
    (n p : ℕ) (s : Counted) (q : ℕ)
    → bitmap_test (free_range n p s).0 q ≡ (if within p n q then false else bitmap_test s.0 q)
unfolding free_range
free_range-test zero p s q = ground arith
free_range-test (suc n) p (m, c) q =
    let s' : Counted = if bitmap_test m p then (bitmap_clear m p, c + 1) else (m, c) in
    ground (arith, free_range-test n (p + 1) s' q, test-clear m p q)

pub reserve_range-test :
    (n p : ℕ) (s : Counted) (q : ℕ)
    → bitmap_test (reserve_range n p s).0 q ≡ (within p n q || bitmap_test s.0 q)
unfolding reserve_range
reserve_range-test zero p s q = ground arith
reserve_range-test (suc n) p (m, c) q =
    let s' : Counted = if bitmap_test m p then (m, c) else (bitmap_set m p, dec64 c) in
    ground (arith, reserve_range-test n (p + 1) s' q, test-set m p q)

pub free_entries-test :
    (total : ℕ) (es : List Entry) (s : Counted) (q : ℕ)
    → bitmap_test (free_entries total es s).0 q
      ≡ (if covered total es q then false else bitmap_test s.0 q)
unfolding free_entries
free_entries-test total [] s q = refl
free_entries-test total (e ∷ es) s q =
    let n = end_page total e - start_page e in
    let s' : Counted = if e.usable then free_range n (start_page e) s else s in
    ground (arith, free_entries-test total es s' q, free_range-test n (start_page e) s q)

-- The count that a loop carries is the number of free pages below `total`.
abbrev pub Exact : ℕ → Counted → Type 0
Exact total s = s.1 ≡ count_free s.0 total

pub free_range-Exact :
    (total n p : ℕ) (s : Counted)
    → p + n ≤ max total p
    → Exact total s
    → Exact total (free_range n p s)
unfolding free_range
free_range-Exact total zero p s l x = x
free_range-Exact total (suc n) p (m, c) l x =
    free_range-Exact total n (p + 1) (if bitmap_test m p then (bitmap_clear m p, c + 1) else (m, c))
      (omega arith) (ground (arith, count_free-clear m total p (omega arith)))

pub reserve_range-Exact :
    (total n p : ℕ) (s : Counted)
    → p + n ≤ max total p
    → Exact total s
    → Exact total (reserve_range n p s)
unfolding reserve_range
reserve_range-Exact total zero p s l x = x
reserve_range-Exact total (suc n) p (m, c) l x =
    reserve_range-Exact total n (p + 1)
      (if bitmap_test m p then (m, c) else (bitmap_set m p, dec64 c)) (omega arith)
      (ground (arith, count_free-set m total p (omega arith)))

pub free_entries-Exact :
    (total : ℕ) (es : List Entry) (s : Counted)
    → Exact total s
    → Exact total (free_entries total es s)
unfolding free_entries
free_entries-Exact total [] s x = x
free_entries-Exact total (e ∷ es) s x =
    let n = end_page total e - start_page e in
    let s' : Counted = if e.usable then free_range n (start_page e) s else s in
    free_entries-Exact total es s'
      (ground (arith, free_range-Exact total n (start_page e) s (omega arith) x))
