-- ===== src/Mm/Pmm/Init.antt =====
-- kernel/mm/pmm.c, pmm_init: from the bootloader's memory map to the bitmap.
pub mod Loops
pub mod Result
use sol_os.Base.{
  ℕ, zero, suc, ◌+◌, ◌-◌, ◌/◌, ◌^◌, min, Bool, true, ◌&&◌, Option, none, some, List, [], ◌∷◌, ltb,
  if◌then◌else◌,
}
use sol_os.Mm.Pmm.{Bitmap, Pmm, bitmap_test, bitmap_set, bitmap_clear, update, page_size, dec64}

-- `struct limine_memmap_entry`; `usable` is `type == LIMINE_MEMMAP_USABLE`.
pub record Entry : Type 0 where
  pub base : ℕ
  pub extent : ℕ
  pub usable : Bool

-- The highest end of a usable entry, at least `highest`.
unfoldable pub highest_end : List Entry → ℕ → ℕ
highest_end [] highest = highest
highest_end (e ∷ es) highest =
    highest_end es
      (if e.usable && ltb highest (e.base + e.extent) then e.base + e.extent else highest)

abbrev pub total_of : List Entry → ℕ
total_of es = (highest_end es 0 + page_size - 1) / page_size

-- The base of the first usable entry: where the bitmap goes.
unfoldable pub first_usable : List Entry → Option ℕ
first_usable [] = none
first_usable (e ∷ es) = if e.usable then some e.base else first_usable es

abbrev pub start_page : Entry → ℕ
start_page e = e.base / page_size

abbrev pub end_page : ℕ → Entry → ℕ
end_page total e = min ((e.base + e.extent + page_size - 1) / page_size) total

abbrev pub bitmap_bytes : ℕ → ℕ
bitmap_bytes total = total / 8

abbrev pub bitmap_pages : ℕ → ℕ
bitmap_pages total = (bitmap_bytes total + page_size - 1) / page_size

-- Writes ones to the `n` words from word `i` on.
unfoldable pub fill_words : ℕ → ℕ → Bitmap → Bitmap
fill_words zero i m = m
fill_words (suc n) i m = fill_words n (i + 1) (update m i (2 ^ 64 - 1))

-- "Start with every tracked page used."
unfoldable pub start_used : ℕ → Bitmap → Bitmap
unfolding fill_words
start_used total m = fill_words ((bitmap_bytes total + 7) / 8) 0 m

-- The bitmap with the count of free pages, which the loops carry along.
abbrev pub Counted : Type 0
Counted = Bitmap × ℕ

-- Frees the `n` pages from page `p` on, those in use only.
unfoldable pub free_range : ℕ → ℕ → Counted → Counted
free_range zero p s = s
free_range (suc n) p (m, c) =
    free_range n (p + 1) (if bitmap_test m p then (bitmap_clear m p, c + 1) else (m, c))

unfoldable pub free_entries : ℕ → List Entry → Counted → Counted
unfolding free_range
free_entries total [] s = s
free_entries total (e ∷ es) s =
    free_entries total es
      (if e.usable then free_range (end_page total e - start_page e) (start_page e) s else s)

-- Reserves the `n` pages from page `p` on, those free only.
unfoldable pub reserve_range : ℕ → ℕ → Counted → Counted
reserve_range zero p s = s
reserve_range (suc n) p (m, c) =
    reserve_range n (p + 1) (if bitmap_test m p then (m, c) else (bitmap_set m p, dec64 c))

abbrev pub low_reserve_end : ℕ
low_reserve_end = 0x100000 / page_size

unfoldable pub build : List Entry → ℕ → ℕ → Bitmap → Counted
unfolding start_used free_entries reserve_range
build es total start m =
    reserve_range (bitmap_pages total) start
      (reserve_range low_reserve_end 0 (free_entries total es (start_used total m, 0)))

-- `ram b` is the memory, as words, from physical address `b` on. `none`: the kernel halts, since
-- there is no memory map or no usable entry.
unfoldable pub init : (ℕ → Bitmap) → Option (List Entry) → Option Pmm
unfolding highest_end first_usable build
init ram none = none
init ram (some es) =
    let total = total_of es in
    elim (first_usable es) [
      | none ↦ none
      | some bitmap_phys ↦
          let start = bitmap_phys / page_size in
          let r = build es total start (ram bitmap_phys) in
          some (record {
            present = true;
            bitmap = r.0;
            total_pages = total;
            first_free_hint = start + bitmap_pages total;
            free_count = r.1;
          })
    ]
