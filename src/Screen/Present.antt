-- ===== src/Screen/Present.antt =====
-- kernel/desktop.c, blit_rect and present_flip, with fb_flip_pages of kernel/framebuffer.c: the
-- finished frame goes to the back page of the video memory, which is then shown.
pub mod Blit
pub mod Copied
pub mod Synced
pub mod Drawn
pub mod Clock
use sol_os.Base.{ℕ, zero, suc, ◌+◌, ◌-◌, ◌*◌, ◌%◌, ◌^◌, false, none, some, ltb, if◌then◌else◌}
use sol_os.Base.Int.{ℤ, pos_part}
use sol_os.Screen.Clip.{Screen, bb_clip}
use sol_os.Screen.Fill.{Buffer, store}
use sol_os.Screen.Damage.{Damage}

-- A row of `n` words, from index `i` of the back buffer to index `d` of the video memory; blit_copy
-- takes two words at a time where it can.
unfoldable pub blit_row : ℕ → Buffer → ℕ → Buffer → ℕ → Buffer
blit_row zero v d m i = v
blit_row (suc n) v d m i = blit_row n (store v d (m i)) (d + 1) m (i + 1)

-- `n` rows from `y` on, each from column `x0` to `x1`. `pitch` is a row's length in words, `base` the
-- place of the active page.
unfoldable pub blit_rows : ℕ → Screen → ℕ → ℕ → Buffer → Buffer → ℕ → ℕ → ℕ → Buffer
unfolding blit_row
blit_rows zero s pitch base v m y x0 x1 = v
blit_rows (suc n) s pitch base v m y x0 x1 =
    blit_rows n s pitch base (blit_row (x1 - x0) v (base + (y * pitch + x0)) m (y * s.width + x0)) m
      (y + 1) x0 x1

unfoldable pub blit_rect : Screen → ℕ → ℕ → Buffer → Buffer → ℤ → ℤ → ℤ → ℤ → Buffer
unfolding blit_rows
blit_rect s pitch base v m x y w h = elim (bb_clip s x y w h) [
  | none ↦ v
  | some b ↦
      blit_rows (pos_part b.y1 - pos_part b.y0) s pitch base v m (pos_part b.y0) (pos_part b.x0)
        (pos_part b.x1)
]

-- `g_bb`, the video memory in words, the page on display, the scanout's offset in rows, and the
-- damage of this frame and of the one before.
pub record Frame : Type 0 where
  pub bb : Buffer
  pub vram : Buffer
  pub front : ℕ
  pub y_offset : ℕ
  pub damage : Damage
  pub damage_prev : Damage

-- With two pages a row has no padding, and the second page follows the first:
-- fb_enable_double_buffer checks the one and sets the other.
abbrev pub page_base : Screen → ℕ → ℕ
page_base s page = page * (s.height * s.width)

-- `fb_flip_pages`, once two pages are armed: the new offset of the scanout.
unfoldable pub fb_flip_pages : Screen → ℕ → ℕ → ℕ
fb_flip_pages s active y_offset =
    let y_offs = active * s.height % 2 ^ 32 in if ltb 65535 y_offs then y_offset else y_offs

unfoldable pub blit_damage : Screen → ℕ → Buffer → Buffer → Damage → Buffer
unfolding blit_rect
blit_damage s base v m d = if d.present then blit_rect s s.width base v m d.x d.y d.w d.h else v

-- The wait for the retrace changes no state.
unfoldable pub present_flip : Screen → Frame → Frame
unfolding blit_damage fb_flip_pages
present_flip s f =
    let back = 1 - f.front in
    let v = blit_damage s (page_base s back) f.vram f.bb f.damage_prev in
    record {
      bb = f.bb;
      vram = blit_damage s (page_base s back) v f.bb f.damage;
      front = back;
      y_offset = fb_flip_pages s back f.y_offset;
      damage = record f.damage { present = false };
      damage_prev = f.damage;
    }
