-- ===== src/Screen/Present/Copied.antt =====
-- kernel/desktop.c, blit_rect: the page after it.
use sol_os.Base.{
  ℕ, ◌+◌, ◌-◌, ◌*◌, ◌^◌, ◌≤◌, ◌<◌, ◌≡◌, refl, ◌∙◌, ◌⊎◌, inl, inr, Option, none, some, arith,
  if◌then◌else◌, le-or-lt, if_true, if_false,
}
use sol_os.Base.Int.{ℤ, pos_part, IsI64, pos}
use sol_os.Screen.Clip.{Bounds, Screen, bb_clip}
use sol_os.Screen.Clip.Exact.{Exactly, Visible, bb_clip_lem}
use sol_os.Screen.Fill.Rect.{
  same_test, Fits, bounds-Fits, part_mono, part_lt, part_below, not_negative, in_filled, out_filled,
  dec-IsOpen, filled,
}
use sol_os.Screen.Clip.Open.{IsOpen}
use sol_os.Screen.Fill.{Buffer}
use sol_os.Screen.Present.{blit_rows, blit_rect}
use sol_os.Screen.Present.Blit.{shown_at, blit_rows_lem, OffPage, blit_rows_off, blit_rows_none}

-- The loops for given bounds.
abbrev blit_bounds : Screen → ℕ → ℕ → Buffer → Buffer → Bounds → Buffer
unfolding blit_rows
blit_bounds s pitch base v m b =
    blit_rows (pos_part b.y1 - pos_part b.y0) s pitch base v m (pos_part b.y0) (pos_part b.x0)
      (pos_part b.x1)

blit_open :
    (s : Screen) (pitch base : ℕ) (v m : Buffer) (b : Bounds) (px py : ℕ)
    → IsOpen b
    → Fits s b
    → s.width ≤ pitch
    → px < s.width
    → blit_bounds s pitch base v m b (shown_at base pitch px py)
      ≡ (if filled b px py then m (py * s.width + px) else v (shown_at base pitch px py))
unfolding blit_bounds
blit_open s pitch base v m b px py o fits k p =
    let left = not_negative b.x0 fits.0 in
    let top = not_negative b.y0 fits.1 in
    let right = not_negative b.x1 (omega arith) in
    let bottom = not_negative b.y1 (omega arith) in
    blit_rows_lem (pos_part b.y1 - pos_part b.y0) s pitch base v m (pos_part b.y0) (pos_part b.x0)
      (pos_part b.x1) px py (omega arith) (omega arith) k p
    ∙ same_test (m (py * s.width + px)) (v (shown_at base pitch px py)) (ground arith)

blit_closed :
    (s : Screen) (pitch base : ℕ) (v m : Buffer) (b : Bounds)
    → (IsOpen b → ⊥)
    → (j : ℕ) → blit_bounds s pitch base v m b j ≡ v j
unfolding blit_bounds
blit_closed s pitch base v m b h j = elim (le-or-lt (pos_part b.x1) (pos_part b.x0)) [
  | inl e ↦ blit_rows_none (pos_part b.y1 - pos_part b.y0) s pitch base v m (pos_part b.y0) _ _ e j
  | inr e ↦ elim (le-or-lt (pos_part b.y1) (pos_part b.y0)) [
    | inl f ↦
        let none_left : pos_part b.y1 - pos_part b.y0 ≡ 0 = omega arith in
        rw (none_left, blit_rows) refl
    | inr f ↦ absurd (h (part_lt b.x0 b.x1 e, part_lt b.y0 b.y1 f))
  ]
]

-- A page after a copy: the pixels of `P` come from the back buffer, the others stay, and so does
-- all that lies off the page.
abbrev pub PageAfter : Screen → ℕ → ℕ → (ℤ → ℤ → Type 0) → Buffer → Buffer → Buffer → Type 0
PageAfter s pitch base P m v new =
    ((px py : ℕ)
      → px < s.width
      → (P (pos px) (pos py) → new (shown_at base pitch px py) ≡ m (py * s.width + px))
        × ((P (pos px) (pos py) → ⊥)
            → new (shown_at base pitch px py) ≡ v (shown_at base pitch px py)))
    × ((j : ℕ) → OffPage base pitch s.height j → new j ≡ v j)

blit_bounds_lem :
    (s : Screen) (pitch base : ℕ) (v m : Buffer) (x y w h : ℤ) (b : Bounds)
    → Exactly (Visible s x y w h) (some b)
    → s.width ≤ pitch
    → IsOpen b ⊎ (IsOpen b → ⊥)
    → PageAfter s pitch base (Visible s x y w h) m v (blit_bounds s pitch base v m b)
unfolding blit_bounds
blit_bounds_lem s pitch base v m x y w h b f k (inl o) =
    let fits = bounds-Fits s x y w h b f o in
    (
      λ px py p.
          let here = blit_open s pitch base v m b px py o fits k p in
          (
            λ i.
                here
                ∙ if_true {b = filled b px py} _ _ (in_filled b px py ((f (pos px) (pos py)).1 i)),
            λ i.
                here
                ∙ if_false {b = filled b px py} _ _
                    (out_filled b px py λ e. i ((f (pos px) (pos py)).0 e)),
          ),
      λ j off.
          let rows = part_mono b.y0 b.y1 (omega arith) in
          let width = part_below b.x1 s.width fits.2 in
          blit_rows_off (pos_part b.y1 - pos_part b.y0) s pitch base v m (pos_part b.y0)
            (pos_part b.x0) (pos_part b.x1) s.height j (part_mono b.x0 b.x1 (omega arith))
            (omega arith) (omega (arith, part_below b.y1 s.height fits.3)) off,
    )
blit_bounds_lem s pitch base v m x y w h b f k (inr o) = (
  λ px py p. (
    λ i. absurd (o (let e = (f (pos px) (pos py)).1 i in ground arith)),
    λ i. blit_closed s pitch base v m b o _,
  ),
  λ j off. blit_closed s pitch base v m b o j,
)

blit_result :
    (o : Option Bounds) (s : Screen) (pitch base : ℕ) (v m : Buffer) (x y w h : ℤ)
    → Exactly (Visible s x y w h) o
    → s.width ≤ pitch
    → PageAfter s pitch base
        (Visible s x y w h)
        m
        v
        (elim o [ none ↦ v | some b ↦ blit_bounds s pitch base v m b ])
blit_result none s pitch base v m x y w h f k =
    (λ px py p. (λ i. absurd (f (pos px) (pos py) i), λ i. refl), λ j off. refl)
blit_result (some b) s pitch base v m x y w h f k =
    blit_bounds_lem s pitch base v m x y w h b f k (dec-IsOpen b)

-- For every rectangle of `int64_t` numbers, a screen below 2^63 in each direction and a pitch of at
-- least a row: after blit_rect the page shows the back buffer at each visible pixel of the
-- rectangle, and each other pixel of the page and all memory off the page are as before.
pub blit_rect_lem :
    (s : Screen) (pitch base : ℕ) (v m : Buffer) (x y w h : ℤ)
    → s.width ≤ pitch
    → s.width < 2 ^ 63
    → s.height < 2 ^ 63
    → IsI64 x
    → IsI64 y
    → IsI64 w
    → IsI64 h
    → PageAfter s pitch base (Visible s x y w h) m v (blit_rect s pitch base v m x y w h)
unfolding blit_rect blit_bounds
blit_rect_lem s pitch base v m x y w h k bw bh ix iy iw ih =
    blit_result (bb_clip s x y w h) s pitch base v m x y w h
      (bb_clip_lem s x y w h bw bh ix iy iw ih) k
