-- ===== src/Screen/Fill/Pixels.antt =====
-- kernel/desktop.c, bb_fill_rect: the pixels that change, and those that do not.
use sol_os.Base.{
  ℕ, zero, suc, ◌+◌, ◌-◌, ◌*◌, ◌≤◌, ◌<◌, ◌≡◌, refl, ap, ◌∙◌, inl, inr, Bool, true, false, ◌&&◌,
  arith, ltb, leb, ◌==◌, if◌then◌else◌, le-or-lt, if_false,
}
use sol_os.Base.Int.{}
use sol_os.Screen.Clip.{Screen}
use sol_os.Screen.Fill.{Buffer, store, fill_row, fill_rows}

fill_row_lem :
    (n : ℕ) (m : Buffer) (i c j : ℕ)
    → fill_row n m i c j ≡ (if leb i j && ltb j (i + n) then c else m j)
unfolding fill_row
fill_row_lem zero m i c j = ground arith
fill_row_lem (suc n) m i c j = ground (arith, fill_row_lem n (store m i c) (i + 1) c j)

-- An index in a row of another number lies outside the row.
pub other_row : (w a b x k : ℕ) → x < w → k < w → a < b → a * w + x < b * w + k
other_row w a b x k h l p = grind arith

pub row_end : (y h w : ℕ) → y < h → y * w + w ≤ h * w
row_end y h w p = grind arith

-- The words of row `y`, from column `x0` to `x1`, are those of its pixels.
pub in_row :
    (w y x0 x1 px py : ℕ)
    → x0 ≤ x1
    → x1 ≤ w
    → px < w
    → (leb (y * w + x0) (py * w + px) && ltb (py * w + px) (y * w + x0 + (x1 - x0)))
      ≡ ((y == py) && (leb x0 px && ltb px x1))
in_row w y x0 x1 px py h l p = elim (le-or-lt y py) [
  | inl a ↦ elim (le-or-lt py y) [
    | inl b ↦ let same : y ≡ py = omega arith in rw same (ground arith)
    | inr b ↦ ground (arith, other_row w y py (x1 - 1) px)
  ]
  | inr a ↦ ground (arith, other_row w py y px x0)
]

-- A row more in front.
pub later_rows :
    (n y py : ℕ) (b : Bool) (c old new : ℕ)
    → new ≡ (if (y == py) && b then c else old)
    → (if leb (y + 1) py && ltb py (y + 1 + n) && b then c else new)
      ≡ (if leb y py && ltb py (y + suc n) && b then c else old)
later_rows n y py true c old new e = ground arith
later_rows n y py false c old new e = ground arith

pub fill_rows_lem :
    (n : ℕ) (s : Screen) (m : Buffer) (y x0 x1 c px py : ℕ)
    → x0 ≤ x1
    → x1 ≤ s.width
    → px < s.width
    → fill_rows n s m y x0 x1 c (py * s.width + px) ≡ (
        if leb y py && ltb py (y + n) && (leb x0 px && ltb px x1) then c else m (py * s.width + px))
unfolding fill_rows
fill_rows_lem zero s m y x0 x1 c px py h l p = ground arith
fill_rows_lem (suc n) s m y x0 x1 c px py h l p =
    let row = fill_row (x1 - x0) m (y * s.width + x0) c in
    let here : row (py * s.width + px)
        ≡ (if (y == py) && (leb x0 px && ltb px x1) then c else m (py * s.width + px)) =
      fill_row_lem (x1 - x0) m (y * s.width + x0) c (py * s.width + px)
      ∙ ap (λ b. if b then c else m (py * s.width + px)) (in_row s.width y x0 x1 px py h l p) in
    fill_rows_lem n s row (y + 1) x0 x1 c px py h l p
    ∙ later_rows n y py (leb x0 px && ltb px x1) c (m (py * s.width + px)) (row (py * s.width + px))
        here

-- No word is written from `size` on, when the last row ends before it.
pub fill_rows_end :
    (n : ℕ) (s : Screen) (m : Buffer) (y x0 x1 c height j : ℕ)
    → x0 ≤ x1
    → x1 ≤ s.width
    → y + n ≤ height
    → height * s.width ≤ j
    → fill_rows n s m y x0 x1 c j ≡ m j
unfolding fill_rows
fill_rows_end zero s m y x0 x1 c height j h l p e = refl
fill_rows_end (suc n) s m y x0 x1 c height j h l p e =
    fill_rows_end n s (fill_row (x1 - x0) m (y * s.width + x0) c) (y + 1) x0 x1 c height j h l
      (omega arith) e
    ∙ fill_row_lem (x1 - x0) m (y * s.width + x0) c j
    ∙ if_false {b = leb (y * s.width + x0) j && ltb j (y * s.width + x0 + (x1 - x0))} _ _
        (ground (arith, row_end y height s.width))

pub fill_rows_none :
    (n : ℕ) (s : Screen) (m : Buffer) (y x0 x1 c : ℕ)
    → x1 ≤ x0
    → (j : ℕ) → fill_rows n s m y x0 x1 c j ≡ m j
unfolding fill_rows
fill_rows_none zero s m y x0 x1 c h j = refl
fill_rows_none (suc n) s m y x0 x1 c h j =
    fill_rows_none n s (fill_row (x1 - x0) m (y * s.width + x0) c) (y + 1) x0 x1 c h j
    ∙ fill_row_lem (x1 - x0) m (y * s.width + x0) c j
    ∙ if_false {b = leb (y * s.width + x0) j && ltb j (y * s.width + x0 + (x1 - x0))} _ _
        (ground arith)
