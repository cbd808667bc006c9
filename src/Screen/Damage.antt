-- ===== src/Screen/Damage.antt =====
-- kernel/desktop.c: the damage of a frame, one rectangle that covers all that was drawn.
pub mod Cover
use sol_os.Base.{Bool, true, ◌&&◌, none, some, if◌then◌else◌}
use sol_os.Base.Int.{ℤ, ◌+ℤ◌, ◌-ℤ◌, ltb_ℤ}
use sol_os.Screen.Clip.{Bounds, Screen, i64_min, i64_max, bb_clip}

-- `g_damage_present` and the rectangle.
pub record Damage : Type 0 where
  pub present : Bool
  pub x : ℤ
  pub y : ℤ
  pub w : ℤ
  pub h : ℤ

unfoldable pub merge : Damage → Bounds → Damage
merge d b =
    let nx0 = i64_min d.x b.x0 in
    let ny0 = i64_min d.y b.y0 in
    let nx1 = i64_max (d.x +ℤ d.w) b.x1 in
    let ny1 = i64_max (d.y +ℤ d.h) b.y1 in
    if d.present
    then record { present = true; x = nx0; y = ny0; w = nx1 -ℤ nx0; h = ny1 -ℤ ny0 }
    else record { present = true; x = b.x0; y = b.y0; w = b.x1 -ℤ b.x0; h = b.y1 -ℤ b.y0 }

-- The sums are of coordinates on the screen, far from the range of `int64_t`.
unfoldable pub damage_add : Screen → Damage → ℤ → ℤ → ℤ → ℤ → Damage
unfolding merge
damage_add s d x y w h = elim (bb_clip s x y w h) [ none ↦ d | some b ↦ merge d b ]

unfoldable pub damage_touches : Damage → ℤ → ℤ → ℤ → ℤ → Bool
damage_touches d x y w h =
    d.present
    && ltb_ℤ x (d.x +ℤ d.w)
    && ltb_ℤ d.x (x +ℤ w)
    && ltb_ℤ y (d.y +ℤ d.h)
    && ltb_ℤ d.y (y +ℤ h)
