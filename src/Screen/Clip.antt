-- ===== src/Screen/Clip.antt =====
-- kernel/desktop.c, bb_clip: a rectangle cut to the back buffer and to the active clip. Coordinates
-- are `int64_t`, with the wrap of its sums.
pub mod Axis
pub mod Exact
pub mod Open
use sol_os.Base.{ℕ, Bool, ◌||◌, Option, none, some, if◌then◌else◌}
use sol_os.Base.Int.{ℤ, ◌+ℤ◌, ◌-ℤ◌, ltb_ℤ, leb_ℤ, wrap_i64, pos}

-- `x0`, `y0`, `x1`, `y1`: the upper bounds are exclusive.
pub record Bounds : Type 0 where
  pub x0 : ℤ
  pub y0 : ℤ
  pub x1 : ℤ
  pub y1 : ℤ

-- `g_w`, `g_h` and the variables of the active clip.
pub record Screen : Type 0 where
  pub width : ℕ
  pub height : ℕ
  pub clip_active : Bool
  pub clip : Bounds

-- The left and the upper edge are cut at 0.
unfoldable pub low_edge : ℤ → ℤ
low_edge x = if ltb_ℤ x (pos 0) then pos 0 else x

-- The right and the lower edge, "saturated so x + w can never overflow".
unfoldable pub high_edge : ℤ → ℤ → ℤ → ℤ
high_edge x w bound =
    let sum = wrap_i64 (x +ℤ w) in
    if leb_ℤ (pos 0) x
    then if leb_ℤ (wrap_i64 (bound -ℤ x)) w then bound else sum
    else if ltb_ℤ bound sum
    then bound
    else sum

unfoldable pub between : ℤ → ℤ → ℤ → Option (ℤ × ℤ)
between low high bound =
    if leb_ℤ bound low then none else if leb_ℤ high low then none else some (low, high)

-- The part of `w` pixels from `x` on that lies below `bound`, as the code computes it for either axis.
unfoldable pub clip_axis : ℤ → ℤ → ℤ → Option (ℤ × ℤ)
unfolding low_edge high_edge between
clip_axis x w bound = between (low_edge x) (high_edge x w bound) bound

abbrev pub i64_min : ℤ → ℤ → ℤ
i64_min a b = if ltb_ℤ a b then a else b

abbrev pub i64_max : ℤ → ℤ → ℤ
i64_max a b = if ltb_ℤ b a then a else b

-- Cut to the active clip.
unfoldable pub narrow : Bounds → Bounds → Option Bounds
narrow c b =
    let x0 = if ltb_ℤ b.x0 c.x0 then c.x0 else b.x0 in
    let y0 = if ltb_ℤ b.y0 c.y0 then c.y0 else b.y0 in
    let x1 = if ltb_ℤ c.x1 b.x1 then c.x1 else b.x1 in
    let y1 = if ltb_ℤ c.y1 b.y1 then c.y1 else b.y1 in
    if leb_ℤ x1 x0 || leb_ℤ y1 y0
    then none
    else some (record { x0 = x0; y0 = y0; x1 = x1; y1 = y1 })

-- Cut to the buffer; the same code as fb_clip of kernel/framebuffer.c.
unfoldable pub clip_screen : ℕ → ℕ → ℤ → ℤ → ℤ → ℤ → Option Bounds
unfolding clip_axis
clip_screen width height x y w h =
    if leb_ℤ w (pos 0) || leb_ℤ h (pos 0) then none else elim (clip_axis x w (pos width)) [
      | none ↦ none
      | some (x0, x1) ↦ elim (clip_axis y h (pos height)) [
        | none ↦ none
        | some (y0, y1) ↦ some (record { x0 = x0; y0 = y0; x1 = x1; y1 = y1 })
      ]
    ]

unfoldable pub bb_clip : Screen → ℤ → ℤ → ℤ → ℤ → Option Bounds
unfolding clip_screen narrow
bb_clip s x y w h = elim (clip_screen s.width s.height x y w h) [
  | none ↦ none
  | some b ↦ if s.clip_active then narrow s.clip b else some b
]
