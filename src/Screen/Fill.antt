-- ===== src/Screen/Fill.antt =====
-- kernel/desktop.c: writing to the back buffer, an array of `g_w * g_h` words by index.
pub mod Rect
pub mod Kept
pub mod Within
pub mod Pixels
use sol_os.Base.{
  ℕ, zero, suc, ◌+◌, ◌-◌, ◌*◌, Bool, ◌&&◌, ◌||◌, none, some, List, [], ◌∷◌, ◌==◌, if◌then◌else◌,
  bit,
}
use sol_os.Base.Int.{ℤ, pos_part, ◌+ℤ◌, ◌-ℤ◌, ltb_ℤ, leb_ℤ, wrap_i64, pos}
use sol_os.Screen.Clip.{Bounds, Screen, bb_clip}

-- `g_bb`
abbrev pub Buffer : Type 0
Buffer = ℕ → ℕ

abbrev pub store : Buffer → ℕ → ℕ → Buffer
store m i c j = if i == j then c else m j

-- `(uint64_t)y * g_w + (uint64_t)x`, of coordinates that are not negative
abbrev pub index : Screen → ℤ → ℤ → ℕ
index s x y = pos_part y * s.width + pos_part x

abbrev pub outside_clip : Bounds → ℤ → ℤ → Bool
outside_clip c x y = ltb_ℤ x c.x0 || leb_ℤ c.x1 x || ltb_ℤ y c.y0 || leb_ℤ c.y1 y

unfoldable pub bb_put_pixel : Screen → Buffer → ℤ → ℤ → ℕ → Buffer
bb_put_pixel s m x y c =
    if ltb_ℤ x (pos 0) || ltb_ℤ y (pos 0) || leb_ℤ (pos s.width) x || leb_ℤ (pos s.height) y
    then m
    else if s.clip_active && outside_clip s.clip x y
    then m
    else store m (index s x y) c

-- The inner loop: `n` words from `i` on.
unfoldable pub fill_row : ℕ → Buffer → ℕ → ℕ → Buffer
fill_row zero m i c = m
fill_row (suc n) m i c = fill_row n (store m i c) (i + 1) c

-- The outer loop: `n` rows from `y` on, each from column `x0` to `x1`.
unfoldable pub fill_rows : ℕ → Screen → Buffer → ℕ → ℕ → ℕ → ℕ → Buffer
unfolding fill_row
fill_rows zero s m y x0 x1 c = m
fill_rows (suc n) s m y x0 x1 c =
    fill_rows n s (fill_row (x1 - x0) m (y * s.width + x0) c) (y + 1) x0 x1 c

unfoldable pub bb_fill_rect : Screen → Buffer → ℤ → ℤ → ℤ → ℤ → ℕ → Buffer
unfolding fill_rows
bb_fill_rect s m x y w h c = elim (bb_clip s x y w h) [
  | none ↦ m
  | some b ↦
      fill_rows (pos_part b.y1 - pos_part b.y0) s m (pos_part b.y0) (pos_part b.x0) (pos_part b.x1)
        c
]

unfoldable pub bb_draw_rect : Screen → Buffer → ℤ → ℤ → ℤ → ℤ → ℕ → Buffer
unfolding bb_fill_rect
bb_draw_rect s m x y w h c =
    let bottom = wrap_i64 (wrap_i64 (y +ℤ h) -ℤ pos 1) in
    let right = wrap_i64 (wrap_i64 (x +ℤ w) -ℤ pos 1) in
    let m1 = bb_fill_rect s m x y w (pos 1) c in
    let m2 = bb_fill_rect s m1 x bottom w (pos 1) c in
    let m3 = bb_fill_rect s m2 x y (pos 1) h c in
    if leb_ℤ w (pos 0) || leb_ℤ h (pos 0) then m else bb_fill_rect s m3 right y (pos 1) h c

-- A glyph's row: `bits` from column `col` on, `n` columns.
unfoldable pub draw_bits : ℕ → Screen → Buffer → ℤ → ℤ → ℕ → ℕ → ℕ → Buffer
draw_bits zero s m x y bits col c = m
draw_bits (suc n) s m x y bits col c =
    draw_bits n s (if bit bits col == 1 then bb_put_pixel s m (x +ℤ pos col) y c else m) x y bits
      (col + 1) c

-- The rows of a glyph, `rows`, from row `row` on. A row without bits is skipped.
unfoldable pub draw_rows : Screen → Buffer → ℤ → ℤ → List ℕ → ℕ → ℕ → Buffer
unfolding draw_bits
draw_rows s m x y [] row c = m
draw_rows s m x y (bits ∷ rows) row c =
    draw_rows s (if bits == 0 then m else draw_bits 8 s m x (y +ℤ pos row) bits 0 c) x y rows
      (row + 1) c

-- `font` is `font8x8_basic`.
unfoldable pub bb_draw_char : (ℕ → List ℕ) → Screen → Buffer → ℤ → ℤ → ℕ → ℕ → Buffer
unfolding draw_rows
bb_draw_char font s m x y ch fg = draw_rows s m x y (font ch) 0 fg

-- The buffer, and the column behind the text.
unfoldable pub bb_draw_string : (ℕ → List ℕ) → Screen → Buffer → ℤ → ℤ → List ℕ → ℕ → Buffer × ℤ
unfolding bb_draw_char
bb_draw_string font s m x y [] fg = (m, x)
bb_draw_string font s m x y (ch ∷ text) fg =
    bb_draw_string font s (bb_draw_char font s m x y ch fg) (x +ℤ pos 8) y text fg
