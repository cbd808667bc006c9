-- ===== src/Screen/Fill/Rect.antt =====
-- kernel/desktop.c, bb_fill_rect: exactly the pixels of the visible part change.
use sol_os.Base.{
  ℕ, ◌+◌, ◌-◌, ◌*◌, ◌^◌, ◌≤◌, ◌<◌, ◌≡◌, refl, sym, ap, ◌∙◌, ◌⊎◌, inl, inr, Bool, true, false, ◌&&◌,
  Option, none, some, arith, if◌then◌else◌, Bool-cases, le-or-lt, if_true, if_false,
}
use sol_os.Base.Int.{ℤ, pos_part, neg_part, ◌-ℤ◌, ◌≤ℤ◌, ◌<ℤ◌, ltb_ℤ, -ℤ_parts, leb_ℤ, IsI64, pos}
use sol_os.Screen.Clip.{Bounds, Screen, bb_clip}
use sol_os.Screen.Clip.Exact.{Exactly, Visible, InBounds, bb_clip_lem}
use sol_os.Screen.Fill.Pixels.{fill_rows_lem, fill_rows_end, fill_rows_none}
use sol_os.Screen.Clip.Open.{IsOpen}
use sol_os.Screen.Fill.{Buffer, fill_rows, bb_fill_rect}

-- What a fill of the bounds leaves at the pixel (`px`, `py`).
abbrev pub filled : Bounds → ℕ → ℕ → Bool
filled b px py =
    leb_ℤ b.x0 (pos px) && ltb_ℤ (pos px) b.x1 && leb_ℤ b.y0 (pos py) && ltb_ℤ (pos py) b.y1

-- The loops for given bounds.
abbrev fill_bounds : Screen → Buffer → Bounds → ℕ → Buffer
unfolding fill_rows
fill_bounds s m b c =
    fill_rows (pos_part b.y1 - pos_part b.y0) s m (pos_part b.y0) (pos_part b.x0) (pos_part b.x1) c

pub same_test : {a b : Bool} (c old : ℕ) → a ≡ b → (if a then c else old) ≡ (if b then c else old)
same_test c old e = ap (λ t. if t then c else old) e

-- Bounds that lie in the buffer, or are empty.
abbrev pub Fits : Screen → Bounds → Type 0
Fits s b = (pos 0 ≤ℤ b.x0) × (pos 0 ≤ℤ b.y0) × (b.x1 ≤ℤ pos s.width) × (b.y1 ≤ℤ pos s.height)

-- Bounds with exactly visible pixels.
pub bounds-Fits :
    (s : Screen) (x y w h : ℤ) (b : Bounds)
    → Exactly (Visible s x y w h) (some b)
    → IsOpen b
    → Fits s b
bounds-Fits s x y w h b f o =
    let first = (f b.x0 b.y0).0 (ground arith) in
    let last =
      (f (b.x1 -ℤ pos 1) (b.y1 -ℤ pos 1)).0
        (ground (arith, -ℤ_parts b.x1 (pos 1), -ℤ_parts b.y1 (pos 1))) in
    (
      first.1.0,
      first.1.2,
      ground (arith, last.1.1, -ℤ_parts b.x1 (pos 1)),
      ground (arith, last.1.3, -ℤ_parts b.y1 (pos 1)),
    )

-- Sign by sign: the non-negative part is monotone, and no less than what is not negative.
pub part_mono : (a b : ℤ) → a ≤ℤ b → pos_part a ≤ pos_part b
part_mono a b h = ground arith

pub part_lt : (a b : ℤ) → pos_part a < pos_part b → a <ℤ b
part_lt a b h = ground arith

pub part_below : (a : ℤ) (n : ℕ) → a ≤ℤ pos n → pos_part a ≤ n
part_below a n h = ground arith

pub not_negative : (a : ℤ) → pos 0 ≤ℤ a → neg_part a ≡ 0
not_negative a h = ground arith

fill_open :
    (s : Screen) (m : Buffer) (b : Bounds) (c px py : ℕ)
    → IsOpen b
    → Fits s b
    → px < s.width
    → fill_bounds s m b c (py * s.width + px)
      ≡ (if filled b px py then c else m (py * s.width + px))
unfolding fill_bounds
fill_open s m b c px py o fits p =
    let left = not_negative b.x0 fits.0 in
    let top = not_negative b.y0 fits.1 in
    let right = not_negative b.x1 (omega arith) in
    let bottom = not_negative b.y1 (omega arith) in
    fill_rows_lem (pos_part b.y1 - pos_part b.y0) s m (pos_part b.y0) (pos_part b.x0)
      (pos_part b.x1) c px py (omega arith) (omega arith) p
    ∙ same_test c (m (py * s.width + px)) (ground arith)

fill_closed :
    (s : Screen) (m : Buffer) (b : Bounds) (c : ℕ)
    → (IsOpen b → ⊥)
    → (j : ℕ) → fill_bounds s m b c j ≡ m j
unfolding fill_bounds
fill_closed s m b c h j = elim (le-or-lt (pos_part b.x1) (pos_part b.x0)) [
  | inl e ↦ fill_rows_none (pos_part b.y1 - pos_part b.y0) s m (pos_part b.y0) _ _ c e j
  | inr e ↦ elim (le-or-lt (pos_part b.y1) (pos_part b.y0)) [
    | inl f ↦
        let none_left : pos_part b.y1 - pos_part b.y0 ≡ 0 = omega arith in
        rw (none_left, fill_rows) refl
    | inr f ↦ absurd (h (part_lt b.x0 b.x1 e, part_lt b.y0 b.y1 f))
  ]
]

pub in_filled : (b : Bounds) (px py : ℕ) → InBounds b (pos px) (pos py) → filled b px py ≡ true
in_filled b px py i = ground arith

pub out_filled :
    (b : Bounds) (px py : ℕ) → (InBounds b (pos px) (pos py) → ⊥) → filled b px py ≡ false
out_filled b px py i = elim (Bool-cases (filled b px py)) [
  | inl e ↦ absurd (i (ground arith))
  | inr e ↦ e
]

pub closed_filled : (b : Bounds) (px py : ℕ) → (IsOpen b → ⊥) → filled b px py ≡ false
closed_filled b px py k = out_filled b px py λ i. k (ground arith)

pub dec-IsOpen : (b : Bounds) → IsOpen b ⊎ (IsOpen b → ⊥)
dec-IsOpen b = elim (Bool-cases (ltb_ℤ b.x0 b.x1 && ltb_ℤ b.y0 b.y1)) [
  | inl e ↦ inl (ground arith)
  | inr e ↦ inr λ o. ground arith
]

-- What the fill of bounds does, whichever they are.
bounds_filled :
    (s : Screen) (m : Buffer) (x y w h : ℤ) (b : Bounds) (c px py : ℕ)
    → Exactly (Visible s x y w h) (some b)
    → px < s.width
    → fill_bounds s m b c (py * s.width + px)
      ≡ (if filled b px py then c else m (py * s.width + px))
bounds_filled s m x y w h b c px py f p = elim (dec-IsOpen b) [
  | inl o ↦ fill_open s m b c px py o (bounds-Fits s x y w h b f o) p
  | inr k ↦
      fill_closed s m b c k _ ∙ sym (if_false {b = filled b px py} _ _ (closed_filled b px py k))
]

bounds_end :
    (s : Screen) (m : Buffer) (x y w h : ℤ) (b : Bounds) (c j : ℕ)
    → Exactly (Visible s x y w h) (some b)
    → s.height * s.width ≤ j
    → fill_bounds s m b c j ≡ m j
unfolding fill_bounds
bounds_end s m x y w h b c j f e = elim (dec-IsOpen b) [
  | inl o ↦
      let fits = bounds-Fits s x y w h b f o in
      let rows = part_mono b.y0 b.y1 (omega arith) in
      fill_rows_end (pos_part b.y1 - pos_part b.y0) s m (pos_part b.y0) (pos_part b.x0)
        (pos_part b.x1) c s.height j (part_mono b.x0 b.x1 (omega arith))
        (part_below b.x1 s.width fits.2) (omega (arith, part_below b.y1 s.height fits.3)) e
  | inr k ↦ fill_closed s m b c k j
]

-- A pixel after a fill.
abbrev pub PixelAfter : Type 0 → ℕ → ℕ → ℕ → Type 0
PixelAfter P new c old = (P → new ≡ c) × ((P → ⊥) → new ≡ old)

abbrev fill_result : Screen → Buffer → ℕ → Option Bounds → Buffer
fill_result s m c none = m
fill_result s m c (some b) = fill_bounds s m b c

result_pixel :
    (o : Option Bounds) (s : Screen) (m : Buffer) (x y w h : ℤ) (c px py : ℕ)
    → Exactly (Visible s x y w h) o
    → px < s.width
    → PixelAfter
        (Visible s x y w h (pos px) (pos py))
        (fill_result s m c o (py * s.width + px))
        c
        (m (py * s.width + px))
result_pixel none s m x y w h c px py f p = (λ v. absurd (f (pos px) (pos py) v), λ v. refl)
result_pixel (some b) s m x y w h c px py f p =
    let here = bounds_filled s m x y w h b c px py f p in
    (
      λ v. here ∙ if_true {b = filled b px py} _ _ (in_filled b px py ((f (pos px) (pos py)).1 v)),
      λ v.
          here
          ∙ if_false {b = filled b px py} _ _
              (out_filled b px py λ i. v ((f (pos px) (pos py)).0 i)),
    )

result_end :
    (o : Option Bounds) (s : Screen) (m : Buffer) (x y w h : ℤ) (c j : ℕ)
    → Exactly (Visible s x y w h) o
    → s.height * s.width ≤ j
    → fill_result s m c o j ≡ m j
result_end none s m x y w h c j f e = refl
result_end (some b) s m x y w h c j f e = bounds_end s m x y w h b c j f e

fill_is_result :
    (s : Screen) (m : Buffer) (x y w h : ℤ) (c : ℕ)
    → bb_fill_rect s m x y w h c ≡ fill_result s m c (bb_clip s x y w h)
unfolding bb_fill_rect
fill_is_result s m x y w h c = elim (bb_clip s x y w h) [ none ↦ refl | some b ↦ refl ]

-- For every rectangle of `int64_t` numbers and a screen below 2^63 in each direction: bb_fill_rect
-- gives the colour to each pixel of the rectangle that is on the screen and within an active clip,
-- leaves each other pixel of the screen as it was, and writes no word behind the buffer's end.
pub bb_fill_rect_lem :
    (s : Screen) (m : Buffer) (x y w h : ℤ) (c : ℕ)
    → s.width < 2 ^ 63
    → s.height < 2 ^ 63
    → IsI64 x
    → IsI64 y
    → IsI64 w
    → IsI64 h
    → ((px py : ℕ)
        → px < s.width
        → PixelAfter
            (Visible s x y w h (pos px) (pos py))
            (bb_fill_rect s m x y w h c (py * s.width + px))
            c
            (m (py * s.width + px)))
      × ((j : ℕ) → s.height * s.width ≤ j → bb_fill_rect s m x y w h c j ≡ m j)
bb_fill_rect_lem s m x y w h c bw bh ix iy iw ih =
    let exact = bb_clip_lem s x y w h bw bh ix iy iw ih in
    rw (fill_is_result s m x y w h c) (
      λ px py p. result_pixel (bb_clip s x y w h) s m x y w h c px py exact p,
      λ j e. result_end (bb_clip s x y w h) s m x y w h c j exact e,
    )
