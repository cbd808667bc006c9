-- ===== src/Png/Filters.antt =====
-- kernel/png.c: the filters of a row, undone in place.
use sol_os.Base.{
  ℕ, zero, suc, ◌+◌, ◌-◌, ◌*◌, ◌/◌, ◌%◌, ◌^◌, bit_or, ◌&&◌, Option, none, some, List, [], ◌∷◌, leb,
  ◌==◌, if◌then◌else◌,
}
use sol_os.Base.Int.{ℤ, pos_part, ◌+ℤ◌, ◌-ℤ◌, ltb_ℤ, pos}
use sol_os.Libc.{Memory, store}

-- `p > a ? p - a : a - p`, for p = a + b - c
abbrev pub distance : ℤ → ℤ → ℕ
distance p a = if ltb_ℤ a p then pos_part (p -ℤ a) else pos_part (a -ℤ p)

-- The predictor of filter 4.
unfoldable pub paeth : ℕ → ℕ → ℕ → ℕ
paeth a b c =
    let p = pos a +ℤ pos b -ℤ pos c in
    let pa = distance p (pos a) in
    let pb = distance p (pos b) in
    let pc = distance p (pos c) in if leb pa pb && leb pa pc then a else if leb pb pc then b else c

-- `n` bytes of a row from byte `i` on; `new` is what a byte becomes.
unfoldable pub filter_loop : ℕ → (Memory → ℕ → ℕ) → Memory → ℕ → ℕ → Memory
filter_loop zero new m cur i = m
filter_loop (suc n) new m cur i = filter_loop n new (store m (cur + i) (new m i)) cur (i + 1)

-- The byte to the left, 0 for the first pixel.
abbrev pub left_of : ℕ → Memory → ℕ → ℕ → ℕ
left_of channels m row i = if leb channels i then m (row + i - channels) else 0

-- The row above is `none` for the first row.
abbrev pub above_at : Memory → Option ℕ → ℕ → ℕ
above_at m none i = 0
above_at m (some row) i = m (row + i)

abbrev pub above_left : ℕ → Memory → Option ℕ → ℕ → ℕ
above_left channels m none i = 0
above_left channels m (some row) i = left_of channels m row i

-- A row of filter type `ft`; `none` is a failure of the decoder.
unfoldable pub unfilter : ℕ → ℕ → Memory → ℕ → Option ℕ → ℕ → Option Memory
unfolding filter_loop paeth
unfilter channels stride m cur prev ft =
    let sub =
      filter_loop (stride - channels) (λ b i. (b (cur + i) + b (cur + i - channels)) % 256) m cur
        channels in
    let up = filter_loop stride (λ b i. (b (cur + i) + above_at b prev i) % 256) m cur 0 in
    let average =
      filter_loop stride
        (λ b i. (b (cur + i) + (left_of channels b cur i + above_at b prev i) / 2) % 256) m cur 0 in
    let predicted =
      filter_loop stride
        (λ b i.
          (b (cur + i)
            + paeth (left_of channels b cur i) (above_at b prev i) (above_left channels b prev i))
          % 256)
        m cur 0 in
    if ft == 1
    then some sub
    else if ft == 2
    then elim prev [ none ↦ none | some row ↦ some up ]
    else if ft == 3
    then some average
    else if ft == 4
    then some predicted
    else if ft == 0
    then some m
    else none

-- The pixels of a row, `n` from pixel `x` on.
unfoldable pub row_pixels : ℕ → ℕ → Memory → ℕ → ℕ → List ℕ
row_pixels zero channels m cur x = []
row_pixels (suc n) channels m cur x =
    let px = cur + x * channels in
    bit_or (bit_or (m px * 2 ^ 16) (m (px + 1) * 2 ^ 8)) (m (px + 2))
    ∷ row_pixels n channels m cur (x + 1)

-- The loop over `n` rows from row `y` on: the bytes and the rows of pixels.
unfoldable pub decode_rows : ℕ → ℕ → ℕ → Memory → ℕ → ℕ → Option (List (List ℕ))
unfolding unfilter row_pixels
decode_rows zero width channels m raw y = some []
decode_rows (suc n) width channels m raw y =
    let stride = width * channels in
    let cur = raw + y * (stride + 1) + 1 in
    let prev = if y == 0 then none else some (raw + (y - 1) * (stride + 1) + 1) in
    elim (unfilter channels stride m cur prev (m (raw + y * (stride + 1)))) [
      | none ↦ none
      | some m1 ↦ elim (decode_rows n width channels m1 raw (y + 1)) [
        | none ↦ none
        | some rows ↦ some (row_pixels width channels m1 cur 0 ∷ rows)
      ]
    ]
