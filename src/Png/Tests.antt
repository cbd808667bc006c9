-- ===== src/Png/Tests.antt =====
-- kernel/png.c: a file with its data in two chunks, and two rows of two pixels.
use sol_os.Base.{ℕ, zero, suc, ◌%◌, ◌≡◌, refl, none, some, List, [], ◌∷◌, ◌++◌, arith}
use sol_os.Libc.{Memory}
use sol_os.Png.{walk, Image, read_ihdr, read_idat, read_chunk, no_image, read_chunks}
use sol_os.Png.Filters.{unfilter, paeth, filter_loop, row_pixels, decode_rows}
use sol_os.Png.Chunks.{two_idats_lem}
use sol_os.Png.Rows.{predicted, Restored, unfilter_lem}

abbrev byte_of : List ℕ → ℕ → ℕ
byte_of [] i = 0
byte_of (x ∷ xs) zero = x
byte_of (x ∷ xs) (suc i) = byte_of xs i

abbrev signature : List ℕ
signature = 137 ∷ 80 ∷ 78 ∷ 71 ∷ 13 ∷ 10 ∷ 26 ∷ 10 ∷ []

-- An image of 2 by 1 pixels.
abbrev header : List ℕ
header =
    0 ∷ 0 ∷ 0 ∷ 13 ∷ 73 ∷ 72 ∷ 68 ∷ 82 ∷ 0 ∷ 0 ∷ 0 ∷ 2 ∷ 0 ∷ 0 ∷ 0 ∷ 1 ∷ 8 ∷ 2 ∷ 0 ∷ 0 ∷ 0 ∷ 1 ∷ 1
    ∷ 1 ∷ 1 ∷ []

abbrev data_chunk : ℕ → List ℕ
data_chunk x = 0 ∷ 0 ∷ 0 ∷ 1 ∷ 73 ∷ 68 ∷ 65 ∷ 84 ∷ x ∷ 1 ∷ 1 ∷ 1 ∷ 1 ∷ []

abbrev one_chunk : Memory
one_chunk = byte_of (signature ++ header ++ data_chunk 7)

abbrev two_chunks : Memory
two_chunks = byte_of (signature ++ header ++ data_chunk 7 ++ data_chunk 9)

abbrev found : Image
found = record {
  width = 2;
  height = 1;
  bit_depth = 8;
  color_type = 2;
  idat = some 41;
  idat_len = 1;
}

one_chunk_read : read_chunks one_chunk 46 ≡ some found
unfolding read_chunks walk read_chunk read_ihdr read_idat
one_chunk_read = refl

two_chunks_refused : read_chunks two_chunks 59 ≡ none
unfolding read_chunks walk read_chunk read_ihdr read_idat
two_chunks_refused = refl

two_idats_lem_example : walk 59 two_chunks 59 33 no_image ≡ none
two_idats_lem_example =
    two_idats_lem 57 two_chunks 59 33 no_image refl (refl, omega arith, omega arith)
      (refl, omega arith, omega arith)

-- The first row has filter 0, the second, from byte 8 on, filter 4.
abbrev rows : Memory
rows i = byte_of (0 ∷ 10 ∷ 20 ∷ 30 ∷ 40 ∷ 50 ∷ 60 ∷ 4 ∷ 1 ∷ 2 ∷ 3 ∷ 250 ∷ 5 ∷ 6 ∷ []) i % 256

two_rows :
    decode_rows 2 2 3 rows 0 0 ≡ some ((660510 ∷ 2634300 ∷ []) ∷ (726561 ∷ 2242370 ∷ []) ∷ [])
unfolding decode_rows unfilter row_pixels filter_loop paeth sol_os.Base.Int.◌-ℤ◌
    sol_os.Base.Int.◌+ℤ◌
two_rows = refl

unfilter_lem_example :
    (out : Memory) × (unfilter 3 6 rows 8 (some 1) 4 ≡ some out)
    × Restored 8 6 (predicted 3 8 (some 1) 4) rows out
unfilter_lem_example =
    unfilter_lem 3 6 rows 8 (some 1) 4 (omega arith) (omega arith) (omega arith) (omega arith)
      (λ x. omega arith) (omega arith) (λ e. ground arith)
