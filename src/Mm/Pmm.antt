-- ===== src/Mm/Pmm.antt =====
-- kernel/mm/pmm.c: the bitmap of physical pages, and the operations on it.
-- Numbers are `uint64_t`; none of the sums below reaches 2^64 on a machine with 52-bit physical
-- addresses, so they are written without a wrap.
pub mod Bits
pub mod Count
pub mod Alloc
pub mod Free
pub mod Owner
mod Tests
pub mod Init
use sol_os.Base.{
  ℕ, zero, suc, ◌+◌, ◌-◌, ◌*◌, ◌/◌, ◌%◌, ◌^◌, bit_and, bit_or, Bool, Option, none, some, ltb, leb,
  ◌==◌, if◌then◌else◌, bit,
}

abbrev pub page_size : ℕ
page_size = 4096

-- The words of memory from `pmm_bitmap` on, by index.
abbrev pub Bitmap : Type 0
Bitmap = ℕ → ℕ

abbrev pub update : Bitmap → ℕ → ℕ → Bitmap
update m i w j = if i == j then w else m j

-- true: the page is in use
unfoldable pub bitmap_test : Bitmap → ℕ → Bool
bitmap_test m page = bit (m (page / 64)) (page % 64) == 1

unfoldable pub bitmap_set : Bitmap → ℕ → Bitmap
bitmap_set m page = update m (page / 64) (bit_or (m (page / 64)) (2 ^ (page % 64)))

unfoldable pub bitmap_clear : Bitmap → ℕ → Bitmap
bitmap_clear m page = update m (page / 64) (bit_and (m (page / 64)) (2 ^ 64 - 1 - 2 ^ (page % 64)))

-- The module's static variables. `present` is `pmm_bitmap != NULL`.
pub record Pmm : Type 0 where
  pub present : Bool
  pub bitmap : Bitmap
  pub total_pages : ℕ
  pub first_free_hint : ℕ
  pub free_count : ℕ

-- The first free page among the `n` pages from `p` on: the inner loop of `pmm_alloc_page`.
unfoldable pub scan : Bitmap → ℕ → ℕ → Option ℕ
scan m zero p = none
scan m (suc n) p = let rest = scan m n (p + 1) in if bitmap_test m p then rest else some p

-- `pmm_free_count--`, which wraps at 0.
abbrev pub dec64 : ℕ → ℕ
dec64 n = if n == 0 then 2 ^ 64 - 1 else n - 1

unfoldable pub take_page : Pmm → ℕ → Pmm
take_page s p = record s {
  bitmap = bitmap_set s.bitmap p;
  free_count = dec64 s.free_count;
  first_free_hint = p + 1;
}

-- Both passes: from the hint to the end, then from the start to the hint.
unfoldable pub find_free : Pmm → Option ℕ
unfolding scan
find_free s = elim (scan s.bitmap (s.total_pages - s.first_free_hint) s.first_free_hint) [
  | some p ↦ some p
  | none ↦ scan s.bitmap s.first_free_hint 0
]

-- Returns the page's address, or 0 (no memory, or not initialised).
unfoldable pub alloc_page : Pmm → Pmm × ℕ
unfolding find_free take_page
alloc_page s =
    if s.present
    then elim (find_free s) [ some p ↦ (take_page s p, p * page_size) | none ↦ (s, 0) ]
    else (s, 0)

unfoldable pub give_page : Pmm → ℕ → Pmm
give_page s p = record s {
  bitmap = bitmap_clear s.bitmap p;
  free_count = s.free_count + 1;
  first_free_hint = if ltb p s.first_free_hint then p else s.first_free_hint;
}

unfoldable pub free_index : Pmm → ℕ → Pmm
unfolding give_page
free_index s p =
    if leb s.total_pages p then s else if bitmap_test s.bitmap p then give_page s p else s

unfoldable pub free_page : Pmm → ℕ → Pmm
unfolding free_index
free_page s paddr =
    if paddr == 0 then s else if paddr % page_size == 0 then free_index s (paddr / page_size) else s

unfoldable pub free_page_count : Pmm → ℕ
free_page_count s = s.free_count
