-- ===== src/Screen/Tests.antt =====
-- kernel/desktop.c: the drawing on a small screen.
use sol_os.Base.{ℕ, ◌+◌, ◌*◌, ◌≤◌, ◌<◌, ◌≡◌, refl, true, false, List, [], ◌∷◌, arith}
use sol_os.Base.Int.{pos, negsuc}
use sol_os.Screen.Clip.{Screen}
use sol_os.Screen.Fill.{Buffer, bb_fill_rect, bb_draw_string}
use sol_os.Screen.Present.{Frame, present_flip}
use sol_os.Screen.Damage.{Damage}
use sol_os.Screen.Present.Synced.{Synced, present_flip_lem, displayed}
use sol_os.Screen.Present.Clock.{render_clock, render_clock-Synced}
use sol_os.Screen.Clip.Exact.{Visible}
use sol_os.Screen.Fill.Kept.{Kept, bb_draw_string-Kept}
use sol_os.Screen.Fill.Rect.{PixelAfter, bb_fill_rect_lem}

-- A screen of 4 by 3 with a clip.
abbrev small : Screen
small = record {
  width = 4;
  height = 3;
  clip_active = true;
  clip = record { x0 = pos 1; y0 = pos 0; x1 = pos 4; y1 = pos 2 };
}

abbrev plain : Screen
plain = record {
  width = 4;
  height = 3;
  clip_active = false;
  clip = record { x0 = pos 0; y0 = pos 0; x1 = pos 0; y1 = pos 0 };
}

abbrev blank : Buffer
blank i = 0

bb_fill_rect_lem_example :
    ((px py : ℕ)
      → px < 4
      → PixelAfter
          (Visible small (negsuc 1) (pos 1) (pos 4) (pos 5) (pos px) (pos py))
          (bb_fill_rect small blank (negsuc 1) (pos 1) (pos 4) (pos 5) 7 (py * 4 + px))
          7
          0)
    × ((j : ℕ) → 12 ≤ j → bb_fill_rect small blank (negsuc 1) (pos 1) (pos 4) (pos 5) 7 j ≡ 0)
bb_fill_rect_lem_example =
    bb_fill_rect_lem small blank (negsuc 1) (pos 1) (pos 4) (pos 5) 7 (omega arith) (omega arith)
      (omega arith) (omega arith) (omega arith) (omega arith)

abbrev no_damage : Damage
no_damage = record { present = false; x = pos 0; y = pos 0; w = pos 0; h = pos 0 }

-- A font whose glyphs are one row.
abbrev bar : ℕ → List ℕ
bar ch = 255 ∷ 0 ∷ []

bb_draw_string-Kept_example :
    Kept small blank (bb_draw_string bar small blank (negsuc 2) (pos 1) (65 ∷ 66 ∷ []) 9).0
bb_draw_string-Kept_example =
    bb_draw_string-Kept bar small blank (negsuc 2) (pos 1) (65 ∷ 66 ∷ []) 9

-- The first frame: both pages show the blank back buffer.
abbrev first_frame : Frame
first_frame = record {
  bb = blank;
  vram = blank;
  front = 0;
  y_offset = 0;
  damage = no_damage;
  damage_prev = no_damage;
}

first_frame-Synced : Synced plain first_frame
first_frame-Synced = (
  omega arith,
  refl,
  λ e. absurd (ground arith),
  λ e. absurd (ground arith),
  λ px py p q stale. refl,
  λ px py p q stale. refl,
)

abbrev second_frame : Frame
unfolding render_clock
second_frame = render_clock bar plain first_frame (65 ∷ 66 ∷ [])

render_clock-Synced_example : Synced plain (render_clock bar plain first_frame (65 ∷ 66 ∷ []))
render_clock-Synced_example =
    render_clock-Synced bar plain first_frame (65 ∷ 66 ∷ []) (omega arith) (omega arith)
      (λ ch. omega arith) (omega arith) first_frame-Synced

present_flip_lem_example :
    ((px py : ℕ)
      → px < 4
      → py < 3
      → displayed plain (present_flip plain second_frame) px py ≡ second_frame.bb (py * 4 + px))
    × Synced plain (present_flip plain second_frame)
unfolding second_frame render_clock
present_flip_lem_example = present_flip_lem plain second_frame refl (omega arith) (omega arith) (
    render_clock-Synced bar plain first_frame (65 ∷ 66 ∷ []) (omega arith) (omega arith)
      (λ ch. omega arith) (omega arith) first_frame-Synced)
