-- ===== src/Screen/Present/Clock.antt =====
-- kernel/desktop.c, render_clock: a repaint between two frames and its damage.
use sol_os.Base.{ℕ, ◌*◌, ◌^◌, ◌≤◌, ◌<◌, sym, ◌∙◌, inl, inr, List, arith, length}
use sol_os.Base.Int.{ℤ, ◌+ℤ◌, ◌-ℤ◌, ◌≤ℤ◌, +ℤ_parts, -ℤ_parts, IsI64, pos}
use sol_os.Screen.Clip.{Screen}
use sol_os.Screen.Fill.{bb_fill_rect, bb_draw_string}
use sol_os.Screen.Fill.Rect.{bb_fill_rect_lem}
use sol_os.Screen.Fill.Within.{HasRoom, bb_draw_string-Within}
use sol_os.Screen.Damage.{damage_add}
use sol_os.Screen.Damage.Cover.{damage_add_lem}
use sol_os.Screen.Present.{Frame}
use sol_os.Screen.Present.Synced.{Synced}
use sol_os.Screen.Present.Drawn.{damage_add-OnFrame}

-- The rectangle that is repainted, for text of `n` bytes, and the place of the text.
abbrev pub text_x : Screen → ℕ → ℤ
text_x s n = pos s.width -ℤ pos 16 -ℤ pos (8 * n)

abbrev pub text_y : Screen → ℤ
text_y s = pos s.height -ℤ pos 48 +ℤ pos 20

abbrev pub clock_x : Screen → ℕ → ℤ
clock_x s n = text_x s n -ℤ pos 8

abbrev pub clock_y : Screen → ℤ
clock_y s = pos s.height -ℤ pos 48 +ℤ pos 4

abbrev pub clock_w : ℕ → ℤ
clock_w n = pos (8 * n) +ℤ pos 16

-- `text` is what build_clock_str puts into `buf`.
unfoldable pub render_clock : (ℕ → List ℕ) → Screen → Frame → List ℕ → Frame
render_clock font s f text =
    let n = length text in
    let m = bb_fill_rect s f.bb (clock_x s n) (clock_y s) (clock_w n) (pos 40) 0x001F2A3C in
    record f {
      bb = (bb_draw_string font s m (text_x s n) (text_y s) text 0x00FFFFFF).0;
      damage = damage_add s f.damage (clock_x s n) (clock_y s) (clock_w n) (pos 40);
    }

columns : (x t : ℤ) → (x -ℤ pos 8 ≤ℤ x) × (x +ℤ t ≤ℤ x -ℤ pos 8 +ℤ (t +ℤ pos 16))
columns x t =
    let p = -ℤ_parts x (pos 8) in
    let q = +ℤ_parts x t in
    let r = +ℤ_parts t (pos 16) in
    let u = +ℤ_parts (x -ℤ pos 8) (t +ℤ pos 16) in (omega arith, omega arith)

lines : (y : ℤ) → (y +ℤ pos 4 ≤ℤ y +ℤ pos 20) × (y +ℤ pos 20 +ℤ pos 8 ≤ℤ y +ℤ pos 4 +ℤ pos 40)
lines y =
    let p = +ℤ_parts y (pos 4) in
    let q = +ℤ_parts y (pos 20) in
    let r = +ℤ_parts (y +ℤ pos 20) (pos 8) in
    let u = +ℤ_parts (y +ℤ pos 4) (pos 40) in (omega arith, omega arith)

-- The repainted rectangle has room for the text.
clock_room :
    (s : Screen) (n : ℕ)
    → HasRoom (clock_x s n) (clock_y s) (clock_w n) (pos 40) (text_x s n) (text_y s) (8 * n)
clock_room s n =
    let a = columns (text_x s n) (pos (8 * n)) in
    let b = lines (pos s.height -ℤ pos 48) in (a.0, a.1, b.0, b.1)

clock_numbers :
    (s : Screen) (n : ℕ)
    → s.width < 2 ^ 63
    → s.height < 2 ^ 63
    → n < 40
    → IsI64 (clock_x s n) × IsI64 (clock_y s) × IsI64 (clock_w n)
unfolding ◌+ℤ◌ ◌-ℤ◌
clock_numbers s n bw bh l = (ground arith, ground arith, ground arith)

-- For a screen below 2^63 in each direction, a font of 8 rows and a text that fits the buffer of 40
-- bytes: render_clock keeps the two pages within their damages, so what it paints, the text
-- included, is in the damage that present_flip copies.
pub render_clock-Synced :
    (font : ℕ → List ℕ) (s : Screen) (f : Frame) (text : List ℕ)
    → s.width < 2 ^ 63
    → s.height < 2 ^ 63
    → ((ch : ℕ) → length (font ch) ≤ 8)
    → length text < 40
    → Synced s f
    → Synced s (render_clock font s f text)
unfolding render_clock
render_clock-Synced font s f text bw bh rows short sync =
    let n = length text in
    let x = clock_x s n in
    let y = clock_y s in
    let w = clock_w n in
    let h = pos 40 in
    let i = clock_numbers s n bw bh short in
    let m = bb_fill_rect s f.bb x y w h 0x001F2A3C in
    let cleared = (bb_fill_rect_lem s f.bb x y w h 0x001F2A3C bw bh i.0 i.1 i.2 (omega arith)).0 in
    let text_in =
      bb_draw_string-Within s x y w h font m (text_x s n) (text_y s) text 0x00FFFFFF rows
        (clock_room s n) in
    let wide = damage_add_lem s f.damage x y w h bw bh i.0 i.1 i.2 (omega arith) in
    (
      sync.0,
      sync.1,
      damage_add-OnFrame s f.damage x y w h bw bh i.0 i.1 i.2 (omega arith) sync.2,
      sync.3,
      λ px py p q stale.
          sync.4 px py p q (λ c. stale (wide.0 (pos px) (pos py) c))
          ∙ sym ((cleared px py p).1 λ v. stale (wide.1 (pos px) (pos py) v))
          ∙ sym (text_in px py p λ v. stale (wide.1 (pos px) (pos py) (v.1, v.0.0, v.0.1))),
      λ px py p q stale.
          sync.5 px py p q
            (λ c. stale (elim c [ inl a ↦ inl (wide.0 (pos px) (pos py) a) | inr a ↦ inr a ]))
          ∙ sym ((cleared px py p).1 λ v. stale (inl (wide.1 (pos px) (pos py) v)))
          ∙ sym (text_in px py p λ v. stale (inl (wide.1 (pos px) (pos py) (v.1, v.0.0, v.0.1)))),
    )
