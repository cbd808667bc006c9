-- ===== src/Screen/Present/Blit.antt =====
-- kernel/desktop.c, blit_rect: exactly the visible part of the rectangle is copied.
use sol_os.Base.{
  ℕ, zero, suc, ◌+◌, ◌-◌, ◌*◌, ◌≤◌, ◌<◌, ◌≡◌, refl, ap, ◌∙◌, ◌⊎◌, inl, inr, Bool, true, false, ◌&&◌,
  arith, ltb, leb, ◌==◌, if◌then◌else◌, le-or-lt, if_true, if_false,
}
use sol_os.Base.Int.{}
use sol_os.Screen.Clip.{Screen}
use sol_os.Screen.Fill.Pixels.{in_row, row_end, later_rows}
use sol_os.Screen.Fill.{Buffer, store}
use sol_os.Screen.Present.{blit_row, blit_rows}

blit_row_lem :
    (n : ℕ) (v : Buffer) (d : ℕ) (m : Buffer) (i j : ℕ)
    → blit_row n v d m i j ≡ (if leb d j && ltb j (d + n) then m (i + (j - d)) else v j)
unfolding blit_row
blit_row_lem zero v d m i j = ground arith
blit_row_lem (suc n) v d m i j =
    blit_row_lem n (store v d (m i)) (d + 1) m (i + 1) j ∙ (elim (le-or-lt j d) [
      | inl a ↦ elim (le-or-lt d j) [
        | inl b ↦
            let same : j ≡ d = omega arith in
            let first : i + (d - d) ≡ i = omega arith in rw (same, first) (ground arith)
        | inr b ↦ ground arith
      ]
      | inr a ↦
          let next : i + 1 + (j - (d + 1)) ≡ i + (j - d) = omega arith in rw next (ground arith)
    ])

-- The word of the page that shows a pixel.
abbrev pub shown_at : ℕ → ℕ → ℕ → ℕ → ℕ
shown_at base pitch px py = base + (py * pitch + px)

-- The word that comes from the row's own pixel.
row_value :
    (b : Bool) (c d old : ℕ) (t : Bool)
    → t ≡ b
    → (b ≡ true → c ≡ d)
    → (if t then c else old) ≡ (if b then d else old)
row_value true c d old t e f = if_true _ _ e ∙ f refl
row_value false c d old t e f = if_false _ _ e

from_start :
    (w pitch base y x0 px py : ℕ)
    → y ≡ py
    → x0 ≤ px
    → y * w + x0 + (base + (py * pitch + px) - (base + (y * pitch + x0))) ≡ py * w + px
from_start w pitch base y x0 px py e h = rw e (omega arith)

row_pixel :
    (s : Screen) (pitch base : ℕ) (v m : Buffer) (y x0 x1 px py : ℕ)
    → x0 ≤ x1
    → x1 ≤ s.width
    → s.width ≤ pitch
    → px < s.width
    → blit_row
        (x1 - x0)
        v
        (base + (y * pitch + x0))
        m
        (y * s.width + x0)
        (shown_at base pitch px py)
      ≡ (if (y == py) && (leb x0 px && ltb px x1)
          then m (py * s.width + px)
          else v (shown_at base pitch px py))
row_pixel s pitch base v m y x0 x1 px py h l k p =
    let shift = in_row pitch y x0 x1 px py h (omega arith) (omega arith) in
    let start = base + (y * pitch + x0) in
    let here = shown_at base pitch px py in
    blit_row_lem (x1 - x0) v start m (y * s.width + x0) here
    ∙ row_value ((y == py) && (leb x0 px && ltb px x1)) (m (y * s.width + x0 + (here - start)))
        (m (py * s.width + px)) (v here) (leb start here && ltb here (start + (x1 - x0)))
        (ground (arith, shift))
        λ e. ap m (from_start s.width pitch base y x0 px py (ground arith) (ground arith))

pub blit_rows_lem :
    (n : ℕ) (s : Screen) (pitch base : ℕ) (v m : Buffer) (y x0 x1 px py : ℕ)
    → x0 ≤ x1
    → x1 ≤ s.width
    → s.width ≤ pitch
    → px < s.width
    → blit_rows n s pitch base v m y x0 x1 (shown_at base pitch px py) ≡ (
        if leb y py && ltb py (y + n) && (leb x0 px && ltb px x1)
        then m (py * s.width + px)
        else v (shown_at base pitch px py))
unfolding blit_rows
blit_rows_lem zero s pitch base v m y x0 x1 px py h l k p = ground arith
blit_rows_lem (suc n) s pitch base v m y x0 x1 px py h l k p =
    let row = blit_row (x1 - x0) v (base + (y * pitch + x0)) m (y * s.width + x0) in
    blit_rows_lem n s pitch base row m (y + 1) x0 x1 px py h l k p
    ∙ later_rows n y py (leb x0 px && ltb px x1) (m (py * s.width + px))
        (v (shown_at base pitch px py)) (row (shown_at base pitch px py))
        (row_pixel s pitch base v m y x0 x1 px py h l k p)

-- The words of a page of `height` rows.
abbrev pub OffPage : ℕ → ℕ → ℕ → ℕ → Type 0
OffPage base pitch height j = (j < base) ⊎ (base + height * pitch ≤ j)

off_row :
    (base pitch height y x0 x1 j : ℕ)
    → y < height
    → x1 ≤ pitch
    → x0 ≤ x1
    → OffPage base pitch height j
    → (leb (base + (y * pitch + x0)) j && ltb j (base + (y * pitch + x0) + (x1 - x0))) ≡ false
off_row base pitch height y x0 x1 j h l k (inl o) = ground arith
off_row base pitch height y x0 x1 j h l k (inr o) = ground (arith, row_end y height pitch)

pub blit_rows_off :
    (n : ℕ) (s : Screen) (pitch base : ℕ) (v m : Buffer) (y x0 x1 height j : ℕ)
    → x0 ≤ x1
    → x1 ≤ pitch
    → y + n ≤ height
    → OffPage base pitch height j
    → blit_rows n s pitch base v m y x0 x1 j ≡ v j
unfolding blit_rows
blit_rows_off zero s pitch base v m y x0 x1 height j h l p o = refl
blit_rows_off (suc n) s pitch base v m y x0 x1 height j h l p o =
    let start = base + (y * pitch + x0) in
    let row = blit_row (x1 - x0) v start m (y * s.width + x0) in
    blit_rows_off n s pitch base row m (y + 1) x0 x1 height j h l (omega arith) o
    ∙ blit_row_lem (x1 - x0) v start m (y * s.width + x0) j
    ∙ if_false {b = leb start j && ltb j (start + (x1 - x0))} _ _
        (off_row base pitch height y x0 x1 j (omega arith) l h o)

pub blit_rows_none :
    (n : ℕ) (s : Screen) (pitch base : ℕ) (v m : Buffer) (y x0 x1 : ℕ)
    → x1 ≤ x0
    → (j : ℕ) → blit_rows n s pitch base v m y x0 x1 j ≡ v j
unfolding blit_rows
blit_rows_none zero s pitch base v m y x0 x1 h j = refl
blit_rows_none (suc n) s pitch base v m y x0 x1 h j =
    let start = base + (y * pitch + x0) in
    let row = blit_row (x1 - x0) v start m (y * s.width + x0) in
    blit_rows_none n s pitch base row m (y + 1) x0 x1 h j
    ∙ blit_row_lem (x1 - x0) v start m (y * s.width + x0) j
    ∙ if_false {b = leb start j && ltb j (start + (x1 - x0))} _ _ (ground arith)
