-- ===== src/Screen/Clip/Exact.antt =====
-- kernel/desktop.c, bb_clip: the result has exactly the pixels that it should have.
use sol_os.Base.{
  subst, ℕ, ◌^◌, ◌<◌, ◌≡◌, sym, ◌↔◌, inl, inr, Bool, true, ◌||◌, Option, none, some, arith,
  if◌then◌else◌, Bool-cases, if_true,
}
use sol_os.Base.Int.{ℤ, ◌+ℤ◌, ◌≤ℤ◌, ◌<ℤ◌, ltb_ℤ, +ℤ_parts, leb_ℤ, IsI64, pos}
use sol_os.Screen.Clip.{Bounds, Screen, narrow, clip_screen, bb_clip}
use sol_os.Screen.Clip.Axis.{CutAxis, clip_axis_lem}

-- The pixel (`p`, `q`) lies in the rectangle and in the buffer, in numbers without a wrap.
abbrev pub InRect : ℤ → ℤ → ℤ → ℤ → ℤ → ℤ → Type 0
InRect x y w h p q = (x ≤ℤ p) × (p <ℤ x +ℤ w) × (y ≤ℤ q) × (q <ℤ y +ℤ h)

abbrev pub OnScreen : ℕ → ℕ → ℤ → ℤ → Type 0
OnScreen width height p q = (pos 0 ≤ℤ p) × (p <ℤ pos width) × (pos 0 ≤ℤ q) × (q <ℤ pos height)

-- The pixel lies within bounds.
abbrev pub InBounds : Bounds → ℤ → ℤ → Type 0
InBounds b p q = (b.x0 ≤ℤ p) × (p <ℤ b.x1) × (b.y0 ≤ℤ q) × (q <ℤ b.y1)

-- A result has exactly the pixels for which `P` holds, and is absent only if there are none.
abbrev pub Exactly : (ℤ → ℤ → Type 0) → Option Bounds → Type 0
Exactly P none = (p q : ℤ) → P p q → ⊥
Exactly P (some b) = (p q : ℤ) → InBounds b p q ↔ P p q

both_axes :
    (x y w h : ℤ) (width height : ℕ) (a b : Option (ℤ × ℤ))
    → CutAxis x w (pos width) a
    → CutAxis y h (pos height) b
    → Exactly
        (λ p q. InRect x y w h p q × OnScreen width height p q)
        (elim a [
          | none ↦ none
          | some (x0, x1) ↦ elim b [
            | none ↦ none
            | some (y0, y1) ↦ some (record { x0 = x0; y0 = y0; x1 = x1; y1 = y1 })
          ]
        ])
both_axes x y w h width height none b f g = λ p q o. f p (o.0.0, o.0.1, o.1.0, o.1.1)
both_axes x y w h width height (some (l, r)) none f g = λ p q o. g q (o.0.2, o.0.3, o.1.2, o.1.3)
both_axes x y w h width height (some (l, r)) (some (t, u)) f g = λ p q. ground (arith, f p, g q)

clip_screen_lem :
    (width height : ℕ) (x y w h : ℤ)
    → width < 2 ^ 63
    → height < 2 ^ 63
    → IsI64 x
    → IsI64 y
    → IsI64 w
    → IsI64 h
    → Exactly
        (λ p q. InRect x y w h p q × OnScreen width height p q)
        (clip_screen width height x y w h)
unfolding clip_screen
clip_screen_lem width height x y w h bw bh ix iy iw ih =
    elim (Bool-cases (leb_ℤ w (pos 0) || leb_ℤ h (pos 0))) [
      | inl e ↦ rw (e, clip_screen) λ p q o. ground (arith, +ℤ_parts x w, +ℤ_parts y h)
      | inr e ↦
          rw (e, clip_screen)
            (both_axes x y w h width height _ _ (clip_axis_lem x w width ix iw bw (ground arith))
              (clip_axis_lem y h height iy ih bh (ground arith)))
    ]

later_low : (a b p : ℤ) → ((if ltb_ℤ b a then a else b) ≤ℤ p) ↔ ((a ≤ℤ p) × (b ≤ℤ p))
later_low a b p = ground arith

earlier_high : (a b p : ℤ) → (p <ℤ (if ltb_ℤ a b then a else b)) ↔ ((p <ℤ a) × (p <ℤ b))
earlier_high a b p = ground arith

abbrev pub empty : Bounds → Bool
empty b = leb_ℤ b.x1 b.x0 || leb_ℤ b.y1 b.y0

empty_lem : (b : Bounds) → Exactly (InBounds b) (if empty b then none else some b)
empty_lem b = elim (Bool-cases (empty b)) [
  | inl e ↦ rw e λ p q o. ground arith
  | inr e ↦ rw e λ p q. (λ o. o, λ o. o)
]

same_pixels :
    (P Q : ℤ → ℤ → Type 0) (o : Option Bounds)
    → ((p q : ℤ) → P p q ↔ Q p q)
    → Exactly P o
    → Exactly Q o
same_pixels P Q none e f = λ p q o. f p q ((e p q).1 o)
same_pixels P Q (some b) e f = λ p q. (λ o. (e p q).0 ((f p q).0 o), λ o. (f p q).1 ((e p q).1 o))

narrow_lem : (c b : Bounds) → Exactly (λ p q. InBounds b p q × InBounds c p q) (narrow c b)
unfolding narrow
narrow_lem c b =
    same_pixels _ _ (narrow c b)
      (λ p q. ground (
        arith,
        later_low c.x0 b.x0 p,
        later_low c.y0 b.y0 q,
        earlier_high c.x1 b.x1 p,
        earlier_high c.y1 b.y1 q,
      ))
      (empty_lem (record {
        x0 = if ltb_ℤ b.x0 c.x0 then c.x0 else b.x0;
        y0 = if ltb_ℤ b.y0 c.y0 then c.y0 else b.y0;
        x1 = if ltb_ℤ c.x1 b.x1 then c.x1 else b.x1;
        y1 = if ltb_ℤ c.y1 b.y1 then c.y1 else b.y1;
      }))

-- What the rectangle should leave.
abbrev pub Visible : Screen → ℤ → ℤ → ℤ → ℤ → ℤ → ℤ → Type 0
Visible s x y w h p q =
    InRect x y w h p q
    × OnScreen s.width s.height p q
    × (s.clip_active ≡ true → InBounds s.clip p q)

clipped :
    (s : Screen) (x y w h : ℤ) (o : Option Bounds)
    → Exactly (λ p q. InRect x y w h p q × OnScreen s.width s.height p q) o
    → Exactly
        (Visible s x y w h)
        (elim o [ none ↦ none | some b ↦ if s.clip_active then narrow s.clip b else some b ])
clipped s x y w h none f = λ p q o. f p q (o.0, o.1)
clipped s x y w h (some b) f = elim (Bool-cases s.clip_active) [
  | inl e ↦
      subst (λ o. Exactly (Visible s x y w h) o) (sym (if_true _ _ e))
        (same_pixels _ _ (narrow s.clip b)
          (λ p q. (
            λ o. (((f p q).0 o.0).0, ((f p q).0 o.0).1, λ t. o.1),
            λ o. ((f p q).1 (o.0, o.1), o.2 e),
          ))
          (narrow_lem s.clip b))
  | inr e ↦ rw e λ p q. ground (arith, f p q)
]

-- For every rectangle of `int64_t` numbers, also those whose far corner is beyond the type's range,
-- and a buffer smaller than 2^63 pixels in each direction: bb_clip gives bounds that contain exactly
-- the pixels of the rectangle that lie in the buffer and, when a clip is active, within it; it gives
-- none only if there is no such pixel.
pub bb_clip_lem :
    (s : Screen) (x y w h : ℤ)
    → s.width < 2 ^ 63
    → s.height < 2 ^ 63
    → IsI64 x
    → IsI64 y
    → IsI64 w
    → IsI64 h
    → Exactly (Visible s x y w h) (bb_clip s x y w h)
unfolding bb_clip
bb_clip_lem s x y w h bw bh ix iy iw ih =
    clipped s x y w h _ (clip_screen_lem s.width s.height x y w h bw bh ix iy iw ih)
