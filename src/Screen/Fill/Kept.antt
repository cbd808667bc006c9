-- ===== src/Screen/Fill/Kept.antt =====
-- kernel/desktop.c: no drawing leaves the screen or the active clip.
use sol_os.Base.{
  subst, ℕ, zero, suc, ◌+◌, ◌*◌, ◌≤◌, ◌<◌, ◌≡◌, refl, sym, ap, ◌∙◌, inl, inr, Bool, true, false,
  ◌&&◌, ◌||◌, List, [], ◌∷◌, arith, ◌==◌, if◌then◌else◌, Bool-cases, le-or-lt, if_true, if_false,
  bit,
}
use sol_os.Base.Int.{ℤ, pos_part, ◌+ℤ◌, ltb_ℤ, leb_ℤ, pos}
use sol_os.Screen.Clip.{Screen}
use sol_os.Screen.Clip.Exact.{OnScreen, InBounds}
use sol_os.Screen.Fill.Pixels.{other_row, row_end}
use sol_os.Screen.Fill.Rect.{not_negative}
use sol_os.Screen.Fill.{
  Buffer, store, outside_clip, bb_put_pixel, draw_bits, draw_rows, bb_draw_char, bb_draw_string,
  index,
}

-- The pixel may be drawn: it is on the screen and within an active clip.
abbrev pub Drawable : Screen → ℤ → ℤ → Type 0
Drawable s p q = OnScreen s.width s.height p q × (s.clip_active ≡ true → InBounds s.clip p q)

-- The words behind the buffer's end are the same, and the pixels that may not be drawn.
abbrev pub Kept : Screen → Buffer → Buffer → Type 0
Kept s m n =
    ((j : ℕ) → s.height * s.width ≤ j → n j ≡ m j)
    × ((px py : ℕ)
        → px < s.width
        → (Drawable s (pos px) (pos py) → ⊥)
        → n (py * s.width + px) ≡ m (py * s.width + px))

Kept-refl : (s : Screen) (m : Buffer) → Kept s m m
Kept-refl s m = (λ j h. refl, λ px py h k. refl)

Kept-then : (s : Screen) (a b c : Buffer) → Kept s a b → Kept s b c → Kept s a c
Kept-then s a b c f g = (λ j h. g.0 j h ∙ f.0 j h, λ px py h k. g.1 px py h k ∙ f.1 px py h k)

Kept-if :
    (s : Screen) (m a b : Buffer) (t : Bool)
    → Kept s m a
    → Kept s m b
    → Kept s m (if t then b else a)
Kept-if s m a b true h k = k
Kept-if s m a b false h k = h

pub same_pixel : (w y x py px : ℕ) → x < w → px < w → y * w + x ≡ py * w + px → (y ≡ py) × (x ≡ px)
same_pixel w y x py px h k e = elim (le-or-lt y py) [
  | inl a ↦ elim (le-or-lt py y) [
    | inl b ↦ let same : y ≡ py = omega arith in (same, ground (arith, ap (λ o. o * w) same))
    | inr b ↦ absurd (ground (arith, other_row w y py x px))
  ]
  | inr a ↦ absurd (ground (arith, other_row w py y px x))
]

store_end : (w h y x j : ℕ) → x < w → y < h → h * w ≤ j → (y * w + x ≡ j → ⊥)
store_end w h y x j p q l e = absurd (ground (arith, row_end y h w))

store-Kept :
    (s : Screen) (m : Buffer) (x y c : ℕ)
    → x < s.width
    → y < s.height
    → Drawable s (pos x) (pos y)
    → Kept s m (store m (y * s.width + x) c)
store-Kept s m x y c h l d = (
  λ j e. ground (arith, store_end s.width s.height y x j h l e),
  λ px py p k. elim (Bool-cases (y * s.width + x == py * s.width + px)) [
    | inl e ↦
        let same = same_pixel s.width y x py px h p (ground arith) in
        absurd (
          k (
            subst (λ a. Drawable s (pos a) (pos py)) same.1
              (subst (λ a. Drawable s (pos x) (pos a)) same.0 d)))
    | inr e ↦ if_false _ _ e
  ],
)

abbrev pub off_screen : Screen → ℤ → ℤ → Bool
off_screen s x y =
    ltb_ℤ x (pos 0) || ltb_ℤ y (pos 0) || leb_ℤ (pos s.width) x || leb_ℤ (pos s.height) y

pub on_screen : (s : Screen) (x y : ℤ) → off_screen s x y ≡ false → OnScreen s.width s.height x y
on_screen s x y e = ground arith

pub in_clip :
    (s : Screen) (x y : ℤ)
    → s.clip_active && outside_clip s.clip x y ≡ false
    → s.clip_active ≡ true
    → InBounds s.clip x y
in_clip s x y e a = ground arith

-- A pixel that passes both tests.
put-Kept :
    (s : Screen) (m : Buffer) (x y : ℤ) (c : ℕ)
    → Drawable s x y
    → Kept s m (store m (index s x y) c)
put-Kept s m x y c d =
    let left = not_negative x d.0.0 in
    let top = not_negative y d.0.2 in
    store-Kept s m (pos_part x) (pos_part y) c (omega arith) (omega arith)
      (ground arith, λ a. ground (arith, d.1 a))

bb_put_pixel-Kept : (s : Screen) (m : Buffer) (x y : ℤ) (c : ℕ) → Kept s m (bb_put_pixel s m x y c)
unfolding bb_put_pixel
bb_put_pixel-Kept s m x y c = elim (Bool-cases (off_screen s x y)) [
  | inl e ↦ subst (λ o. Kept s m o) (sym (if_true _ _ e)) (Kept-refl s m)
  | inr e ↦
      subst (λ o. Kept s m o) (sym (if_false _ _ e))
        (elim (Bool-cases (s.clip_active && outside_clip s.clip x y)) [
          | inl f ↦ subst (λ o. Kept s m o) (sym (if_true _ _ f)) (Kept-refl s m)
          | inr f ↦
              subst (λ o. Kept s m o) (sym (if_false _ _ f))
                (put-Kept s m x y c (on_screen s x y e, in_clip s x y f))
        ])
]

draw_bits-Kept :
    (n : ℕ) (s : Screen) (m : Buffer) (x y : ℤ) (bits col c : ℕ)
    → Kept s m (draw_bits n s m x y bits col c)
unfolding draw_bits
draw_bits-Kept zero s m x y bits col c = Kept-refl s m
draw_bits-Kept (suc n) s m x y bits col c =
    let m1 = if bit bits col == 1 then bb_put_pixel s m (x +ℤ pos col) y c else m in
    Kept-then s m m1 _
      (Kept-if s m m _ (bit bits col == 1) (Kept-refl s m)
        (bb_put_pixel-Kept s m (x +ℤ pos col) y c))
      (draw_bits-Kept n s m1 x y bits (col + 1) c)

draw_rows-Kept :
    (s : Screen) (m : Buffer) (x y : ℤ) (rows : List ℕ) (row c : ℕ)
    → Kept s m (draw_rows s m x y rows row c)
unfolding draw_rows
draw_rows-Kept s m x y [] row c = Kept-refl s m
draw_rows-Kept s m x y (bits ∷ rows) row c =
    let m1 = if bits == 0 then m else draw_bits 8 s m x (y +ℤ pos row) bits 0 c in
    Kept-then s m m1 _
      (Kept-if s m _ m (bits == 0) (draw_bits-Kept 8 s m x (y +ℤ pos row) bits 0 c) (Kept-refl s m))
      (draw_rows-Kept s m1 x y rows (row + 1) c)

-- For any font, place and text: bb_draw_string changes no word behind the buffer's end, and no
-- pixel off the screen or outside an active clip.
pub bb_draw_string-Kept :
    (font : ℕ → List ℕ) (s : Screen) (m : Buffer) (x y : ℤ) (text : List ℕ) (fg : ℕ)
    → Kept s m (bb_draw_string font s m x y text fg).0
unfolding bb_draw_string bb_draw_char
bb_draw_string-Kept font s m x y [] fg = Kept-refl s m
bb_draw_string-Kept font s m x y (ch ∷ text) fg =
    Kept-then s m (bb_draw_char font s m x y ch fg) _ (draw_rows-Kept s m x y (font ch) 0 fg)
      (bb_draw_string-Kept font s (bb_draw_char font s m x y ch fg) (x +ℤ pos 8) y text fg)
