-- ===== src/Png/Chunks.antt =====
-- kernel/png.c: an image whose data stands in two chunks.
use sol_os.Base.{
  ℕ, suc, ◌+◌, ◌≤◌, ◌<◌, ◌≡◌, refl, ap, ◌∙◌, true, false, Option, none, some, arith, ltb, ◌==◌,
  if_true, if_false,
}
use sol_os.Libc.{Memory}
use sol_os.Png.{be32, Image, is_ihdr, is_idat, is_iend, read_idat, read_chunk, walk}

-- The chunk at `place` lies in the file and has data of an image.
abbrev pub DataChunk : Memory → ℕ → ℕ → Type 0
DataChunk p size place =
    (is_idat p (place + 4) ≡ true) × (0 < be32 p place) × (place + 8 + be32 p place ≤ size)

other_types :
    (p : Memory) (i : ℕ) → is_idat p i ≡ true → (is_ihdr p i ≡ false) × (is_iend p i ≡ false)
other_types p i h = ground arith

idat_step :
    (fuel : ℕ) (p : Memory) (size place : ℕ) (img : Image)
    → DataChunk p size place
    → walk (suc fuel) p size place img
      ≡ elim (read_idat (place + 8) (be32 p place) img) as (λ x. Option Image) [
        | none ↦ none
        | some next ↦ walk fuel p size (place + 12 + be32 p place) next
      ]
unfolding walk read_chunk
idat_step fuel p size place img d =
    let types = other_types p (place + 4) d.0 in
    if_false {b = ltb size (place + 8)} _ _ (ground (arith, d.2))
    ∙ if_false {b = ltb size (place + 8 + be32 p place)} _ _ (ground (arith, d.2))
    ∙ if_false {b = is_iend p (place + 4)} _ _ types.1
    ∙ ap {A = Option Image}
        (λ o. elim o as (λ x. Option Image) [
          | none ↦ none
          | some next ↦ walk fuel p size (place + 12 + be32 p place) next
        ])
        (if_false {b = is_ihdr p (place + 4)} _ _ types.0
          ∙ if_true {b = is_idat p (place + 4)} _ _ d.0)

first_idat :
    (chunk len : ℕ) (img : Image)
    → img.idat ≡ none
    → 0 < len
    → read_idat chunk len img ≡ some (record img { idat = some chunk; idat_len = len })
unfolding read_idat
first_idat chunk len img e lt = if_false {b = len == 0} _ _ (ground arith) ∙ (rw e)

apart_idat :
    (at chunk len : ℕ) (img : Image)
    → img.idat ≡ some at
    → 0 < len
    → at + img.idat_len < chunk
    → read_idat chunk len img ≡ none
unfolding read_idat
apart_idat at chunk len img e lt gap =
    if_false {b = len == 0} _ _ (ground arith)
    ∙ rw e (if_false {b = at + img.idat_len == chunk} _ _ (ground arith))

-- When no data was found yet and two IDAT chunks with data follow each other inside the file, the walk
-- refuses the image: the checksum and the header between them keep the second's data from starting
-- where the first's ends.
pub two_idats_lem :
    (fuel : ℕ) (p : Memory) (size place : ℕ) (img : Image)
    → img.idat ≡ none
    → DataChunk p size place
    → DataChunk p size (place + 12 + be32 p place)
    → walk (suc (suc fuel)) p size place img ≡ none
two_idats_lem fuel p size place img e d d' =
    let len = be32 p place in
    let chunk = place + 12 + len in
    let first = record img { idat = some (place + 8); idat_len = len } in
    rw (idat_step (suc fuel) p size place img d) (
      rw (first_idat (place + 8) len img e d.1) (
        rw (idat_step fuel p size chunk first d')
          (rw (apart_idat (place + 8) (chunk + 8) (be32 p chunk) first refl d'.1 (omega arith)))))
