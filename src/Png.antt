-- ===== src/Png.antt =====
-- kernel/png.c: the chunks of a file, and the filters of its rows. The file is memory from its first
-- byte on; the inflater is not modelled.
pub mod Chunks
pub mod Filters
mod Paeth
mod Rows
mod Tests
use sol_os.Base.{
  ℕ, zero, suc, ◌+◌, ◌*◌, ◌^◌, Bool, ◌&&◌, ◌||◌, not, Option, none, some, ltb, ◌==◌, if◌then◌else◌,
}
use sol_os.Libc.{Memory}

abbrev pub be32 : Memory → ℕ → ℕ
be32 p i = p i * 2 ^ 24 + p (i + 1) * 2 ^ 16 + p (i + 2) * 2 ^ 8 + p (i + 3)

-- What the walk over the chunks gathers; `idat` is a place in the file, `none` is NULL.
pub record Image : Type 0 where
  pub width : ℕ
  pub height : ℕ
  pub bit_depth : ℕ
  pub color_type : ℕ
  pub idat : Option ℕ
  pub idat_len : ℕ

abbrev pub has_type : Memory → ℕ → ℕ → ℕ → ℕ → ℕ → Bool
has_type p i a b c d = p i == a && p (i + 1) == b && p (i + 2) == c && p (i + 3) == d

abbrev pub is_ihdr : Memory → ℕ → Bool
is_ihdr p i = has_type p i 73 72 68 82

abbrev pub is_idat : Memory → ℕ → Bool
is_idat p i = has_type p i 73 68 65 84

abbrev pub is_iend : Memory → ℕ → Bool
is_iend p i = has_type p i 73 69 78 68

-- The header chunk, its data at `chunk`.
unfoldable pub read_ihdr : Memory → ℕ → ℕ → Image → Option Image
read_ihdr p chunk len img =
    let w = be32 p chunk in
    let h = be32 p (chunk + 4) in
    let depth = p (chunk + 8) in
    let color = p (chunk + 9) in
    if ltb len 13
    then none
    else if not (p (chunk + 10) == 0 && p (chunk + 11) == 0 && p (chunk + 12) == 0)
    then none
    else if w == 0 || h == 0 || ltb 16384 w || ltb 16384 h
    then none
    else if not (depth == 8)
    then none
    else if not (color == 2 || color == 6)
    then none
    else some (record img { width = w; height = h; bit_depth = depth; color_type = color })

-- A data chunk: a further one must start where the data so far ends.
unfoldable pub read_idat : ℕ → ℕ → Image → Option Image
read_idat chunk len img = if len == 0 then some img else elim img.idat [
  | none ↦ some (record img { idat = some chunk; idat_len = len })
  | some at ↦
      if at + img.idat_len == chunk
      then some (record img { idat_len = img.idat_len + len })
      else none
]

-- A chunk of another type is passed over.
unfoldable pub read_chunk : Memory → ℕ → ℕ → Image → Option Image
unfolding read_ihdr read_idat
read_chunk p place len img =
    if is_ihdr p (place + 4)
    then read_ihdr p (place + 8) len img
    else if is_idat p (place + 4)
    then read_idat (place + 8) len img
    else some img

-- The loop over the chunks. The sum 12 + len, a uint32_t in the code, wraps only in a file of 4 GiB
-- or more, which is left out. Each turn moves on by 12 bytes or more, so a turn for each byte
-- is enough.
unfoldable pub walk : ℕ → Memory → ℕ → ℕ → Image → Option Image
unfolding read_chunk
walk zero p size place img = some img
walk (suc fuel) p size place img =
    let len = be32 p place in
    if ltb size (place + 8)
    then some img
    else if ltb size (place + 8 + len)
    then none
    else if is_iend p (place + 4)
    then some img
    else elim (read_chunk p place len img) [
      | none ↦ none
      | some next ↦ walk fuel p size (place + 12 + len) next
    ]

abbrev pub no_image : Image
no_image = record {
  width = 0;
  height = 0;
  bit_depth = 0;
  color_type = 0;
  idat = none;
  idat_len = 0;
}

abbrev pub has_signature : Memory → Bool
has_signature p =
    p 0 == 137
    && p 1 == 80
    && p 2 == 78
    && p 3 == 71
    && p 4 == 13
    && p 5 == 10
    && p 6 == 26
    && p 7 == 10

-- The part of png_decode before the inflater: the size of the image and the place of its data.
unfoldable pub read_chunks : Memory → ℕ → Option Image
unfolding walk
read_chunks p size =
    if ltb size 8
    then none
    else if not (has_signature p)
    then none
    else elim (walk size p size 8 no_image) [
      | none ↦ none
      | some img ↦ elim img.idat [
        | none ↦ none
        | some at ↦ if img.width == 0 || img.height == 0 then none else some img
      ]
    ]
