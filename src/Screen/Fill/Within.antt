-- ===== src/Screen/Fill/Within.antt =====
-- kernel/desktop.c: text stays in the rectangle that it is measured for.
use sol_os.Base.{
  subst, ℕ, zero, suc, ◌+◌, ◌*◌, ◌≤◌, ◌<◌, ◌≡◌, refl, sym, ◌∙◌, inl, inr, Bool, true, false, ◌&&◌,
  List, [], ◌∷◌, arith, ◌==◌, if◌then◌else◌, Bool-cases, if_true, if_false, length, bit,
}
use sol_os.Base.Int.{ℤ, pos_part, ◌+ℤ◌, ◌≤ℤ◌, +ℤ_parts, pos}
use sol_os.Screen.Clip.{Screen}
use sol_os.Screen.Clip.Exact.{InRect}
use sol_os.Screen.Fill.Rect.{not_negative}
use sol_os.Screen.Fill.Kept.{Drawable, same_pixel, off_screen, on_screen, in_clip}
use sol_os.Screen.Fill.{
  Buffer, store, outside_clip, bb_put_pixel, draw_bits, draw_rows, bb_draw_char, bb_draw_string,
  index,
}

-- The pixels of the rectangle that may be drawn.
abbrev pub Inside : Screen → ℤ → ℤ → ℤ → ℤ → ℤ → ℤ → Type 0
Inside s a b w h p q = Drawable s p q × InRect a b w h p q

-- No other pixel changes.
abbrev pub Within : Screen → ℤ → ℤ → ℤ → ℤ → Buffer → Buffer → Type 0
Within s a b w h m n =
    (px py : ℕ)
    → px < s.width
    → (Inside s a b w h (pos px) (pos py) → ⊥)
    → n (py * s.width + px) ≡ m (py * s.width + px)

-- Text of `n` columns and 8 rows at `x`, `y` has room in the rectangle.
abbrev pub HasRoom : ℤ → ℤ → ℤ → ℤ → ℤ → ℤ → ℕ → Type 0
HasRoom a b w h x y n = (a ≤ℤ x) × (x +ℤ pos n ≤ℤ a +ℤ w) × (b ≤ℤ y) × (y +ℤ pos 8 ≤ℤ b +ℤ h)

module _ (s : Screen) (a b w h : ℤ) where
  Within-refl : (m : Buffer) → Within s a b w h m m
  Within-refl m px py l k = refl

  Within-then :
      (m n o : Buffer) → Within s a b w h m n → Within s a b w h n o → Within s a b w h m o
  Within-then m n o f g px py l k = g px py l k ∙ f px py l k

  Within-if :
      (m n o : Buffer) (t : Bool)
      → Within s a b w h m n
      → Within s a b w h m o
      → Within s a b w h m (if t then o else n)
  Within-if m n o true f g = g
  Within-if m n o false f g = f

  store-Within :
      (m : Buffer) (x y c : ℕ)
      → x < s.width
      → Inside s a b w h (pos x) (pos y)
      → Within s a b w h m (store m (y * s.width + x) c)
  store-Within m x y c l d px py p k = elim (Bool-cases (y * s.width + x == py * s.width + px)) [
    | inl e ↦
        let same = same_pixel s.width y x py px l p (ground arith) in
        absurd (
          k (
            subst (λ t. Inside s a b w h (pos t) (pos py)) same.1
              (subst (λ t. Inside s a b w h (pos x) (pos t)) same.0 d)))
    | inr e ↦ if_false _ _ e
  ]

  put-Within :
      (m : Buffer) (x y : ℤ) (c : ℕ)
      → Inside s a b w h x y
      → Within s a b w h m (store m (index s x y) c)
  put-Within m x y c d =
      let left = not_negative x d.0.0.0 in
      let top = not_negative y d.0.0.2 in
      store-Within m (pos_part x) (pos_part y) c (omega arith)
        ((ground arith, λ t. ground (arith, d.0.1 t)), ground (arith, d.1))

  bb_put_pixel-Within :
      (m : Buffer) (x y : ℤ) (c : ℕ)
      → InRect a b w h x y
      → Within s a b w h m (bb_put_pixel s m x y c)
  unfolding bb_put_pixel
  bb_put_pixel-Within m x y c r = elim (Bool-cases (off_screen s x y)) [
    | inl e ↦ subst (λ o. Within s a b w h m o) (sym (if_true _ _ e)) (Within-refl m)
    | inr e ↦
        subst (λ o. Within s a b w h m o) (sym (if_false _ _ e))
          (elim (Bool-cases (s.clip_active && outside_clip s.clip x y)) [
            | inl f ↦ subst (λ o. Within s a b w h m o) (sym (if_true _ _ f)) (Within-refl m)
            | inr f ↦
                subst (λ o. Within s a b w h m o) (sym (if_false _ _ f))
                  (put-Within m x y c ((on_screen s x y e, in_clip s x y f), r))
          ])
  ]

  spot :
      (x y : ℤ) (n col row : ℕ)
      → HasRoom a b w h x y n
      → col < n
      → row < 8
      → InRect a b w h (x +ℤ pos col) (y +ℤ pos row)
  spot x y n col row r k l =
      let p = +ℤ_parts x (pos col) in
      let q = +ℤ_parts y (pos row) in
      let u = +ℤ_parts x (pos n) in
      let v = +ℤ_parts y (pos 8) in (omega arith, omega arith, omega arith, omega arith)

  draw_bits-Within :
      (n : ℕ) (m : Buffer) (x y : ℤ) (bits col c row : ℕ)
      → HasRoom a b w h x y 8
      → col + n ≤ 8
      → row < 8
      → Within s a b w h m (draw_bits n s m x (y +ℤ pos row) bits col c)
  unfolding draw_bits
  draw_bits-Within zero m x y bits col c row r k l = Within-refl m
  draw_bits-Within (suc n) m x y bits col c row r k l =
      let line = y +ℤ pos row in
      let m1 = if bit bits col == 1 then bb_put_pixel s m (x +ℤ pos col) line c else m in
      Within-then m m1 (draw_bits n s m1 x line bits (col + 1) c)
        (Within-if m m (bb_put_pixel s m (x +ℤ pos col) line c) (bit bits col == 1) (Within-refl m)
          (bb_put_pixel-Within m (x +ℤ pos col) line c (spot x y 8 col row r (omega arith) l)))
        (draw_bits-Within n m1 x y bits (col + 1) c row r (omega arith) l)

  draw_rows-Within :
      (m : Buffer) (x y : ℤ) (rows : List ℕ) (row c : ℕ)
      → HasRoom a b w h x y 8
      → row + length rows ≤ 8
      → Within s a b w h m (draw_rows s m x y rows row c)
  unfolding draw_rows
  draw_rows-Within m x y [] row c r k = Within-refl m
  draw_rows-Within m x y (bits ∷ rows) row c r k =
      let m1 = if bits == 0 then m else draw_bits 8 s m x (y +ℤ pos row) bits 0 c in
      Within-then m m1 (draw_rows s m1 x y rows (row + 1) c)
        (Within-if m (draw_bits 8 s m x (y +ℤ pos row) bits 0 c) m (bits == 0)
          (draw_bits-Within 8 m x y bits 0 c row r (omega arith) (omega arith)) (Within-refl m))
        (draw_rows-Within m1 x y rows (row + 1) c r (omega arith))

  first_char : (x y : ℤ) (n : ℕ) → HasRoom a b w h x y (8 * suc n) → HasRoom a b w h x y 8
  first_char x y n r =
      let u = +ℤ_parts x (pos 8) in
      let v = +ℤ_parts x (pos (8 * suc n)) in (r.0, omega arith, r.2, r.3)

  later_chars :
      (x y : ℤ) (n : ℕ) → HasRoom a b w h x y (8 * suc n) → HasRoom a b w h (x +ℤ pos 8) y (8 * n)
  later_chars x y n r =
      let u = +ℤ_parts x (pos 8) in
      let v = +ℤ_parts x (pos (8 * suc n)) in
      let t = +ℤ_parts (x +ℤ pos 8) (pos (8 * n)) in (omega arith, omega arith, r.2, r.3)

  -- For a font of 8 rows: text of 8 columns for each byte changes only pixels of a rectangle that has
  -- room for it.
  pub bb_draw_string-Within :
      (font : ℕ → List ℕ) (m : Buffer) (x y : ℤ) (text : List ℕ) (fg : ℕ)
      → ((ch : ℕ) → length (font ch) ≤ 8)
      → HasRoom a b w h x y (8 * length text)
      → Within s a b w h m (bb_draw_string font s m x y text fg).0
  unfolding bb_draw_string bb_draw_char
  bb_draw_string-Within font m x y [] fg rows r = Within-refl m
  bb_draw_string-Within font m x y (ch ∷ text) fg rows r =
      Within-then m (bb_draw_char font s m x y ch fg)
        (bb_draw_string font s (bb_draw_char font s m x y ch fg) (x +ℤ pos 8) y text fg).0
        (draw_rows-Within m x y (font ch) 0 fg (first_char x y (length text) r)
          (omega (arith, rows ch)))
        (bb_draw_string-Within font (bb_draw_char font s m x y ch fg) (x +ℤ pos 8) y text fg rows
          (later_chars x y (length text) r))
