-- ===== src/Screen/Damage/Cover.antt =====
-- kernel/desktop.c, damage_add: the frame's damage covers what was drawn.
use sol_os.Base.{
  subst, ◌^◌, ◌<◌, ◌≡◌, refl, sym, ◌↔◌, ◌⊎◌, inl, inr, true, Option, none, some, arith, Bool-cases,
  if_true, if_false,
}
use sol_os.Base.Int.{ℤ, ◌+ℤ◌, ◌-ℤ◌, ◌≤ℤ◌, ◌<ℤ◌, +ℤ_parts, -ℤ_parts, IsI64}
use sol_os.Screen.Clip.{Bounds, Screen, i64_min, i64_max, bb_clip}
use sol_os.Screen.Clip.Exact.{InRect, InBounds, Exactly, Visible, bb_clip_lem}
use sol_os.Screen.Damage.{Damage, merge, damage_add, damage_touches}

-- The pixel lies in the recorded damage.
abbrev pub Covers : Damage → ℤ → ℤ → Type 0
Covers d p q = (d.present ≡ true) × InRect d.x d.y d.w d.h p q

span : (a b p : ℤ) → (p <ℤ a +ℤ (b -ℤ a)) ↔ (p <ℤ b)
span a b p = ground (arith, +ℤ_parts a (b -ℤ a), -ℤ_parts b a)

min_low : (a b p : ℤ) → (a ≤ℤ p) ⊎ (b ≤ℤ p) → i64_min a b ≤ℤ p
min_low a b p h = ground arith

max_high : (a b p : ℤ) → (p <ℤ a) ⊎ (p <ℤ b) → p <ℤ i64_max a b
max_high a b p h = ground arith

-- A span from the lower start to the higher end.
joined :
    (a b c d p : ℤ)
    → ((a ≤ℤ p) × (p <ℤ b)) ⊎ ((c ≤ℤ p) × (p <ℤ d))
    → (i64_min a c ≤ℤ p) × (p <ℤ i64_min a c +ℤ (i64_max b d -ℤ i64_min a c))
joined a b c d p (inl h) =
    (min_low a c p (inl h.0), (span (i64_min a c) (i64_max b d) p).1 (max_high b d p (inl h.1)))
joined a b c d p (inr h) =
    (min_low a c p (inr h.0), (span (i64_min a c) (i64_max b d) p).1 (max_high b d p (inr h.1)))

merge_old : (d : Damage) (b : Bounds) (p q : ℤ) → Covers d p q → Covers (merge d b) p q
unfolding merge
merge_old d b p q c =
    let xs = joined d.x (d.x +ℤ d.w) b.x0 b.x1 p (inl (c.1.0, c.1.1)) in
    let ys = joined d.y (d.y +ℤ d.h) b.y0 b.y1 q (inl (c.1.2, c.1.3)) in
    subst (λ o. Covers o p q) (sym (if_true _ _ c.0)) (refl, (xs.0, xs.1, ys.0, ys.1))

merge_new : (d : Damage) (b : Bounds) (p q : ℤ) → InBounds b p q → Covers (merge d b) p q
unfolding merge
merge_new d b p q c = elim (Bool-cases d.present) [
  | inl e ↦
      let xs = joined d.x (d.x +ℤ d.w) b.x0 b.x1 p (inr (c.0, c.1)) in
      let ys = joined d.y (d.y +ℤ d.h) b.y0 b.y1 q (inr (c.2, c.3)) in
      subst (λ o. Covers o p q) (sym (if_true _ _ e)) (refl, (xs.0, xs.1, ys.0, ys.1))
  | inr e ↦
      subst (λ o. Covers o p q) (sym (if_false _ _ e))
        (refl, (c.0, (span b.x0 b.x1 p).1 c.1, c.2, (span b.y0 b.y1 q).1 c.3))
]

-- What the damage is after a clipped rectangle, or none.
abbrev pub Widened : Damage → Damage → (ℤ → ℤ → Type 0) → Type 0
Widened d e P = ((p q : ℤ) → Covers d p q → Covers e p q) × ((p q : ℤ) → P p q → Covers e p q)

widened :
    (d : Damage) (P : ℤ → ℤ → Type 0) (o : Option Bounds)
    → Exactly P o
    → Widened d (elim o [ none ↦ d | some b ↦ merge d b ]) P
widened d P none f = (λ p q c. c, λ p q v. absurd (f p q v))
widened d P (some b) f = (λ p q c. merge_old d b p q c, λ p q v. merge_new d b p q ((f p q).1 v))

-- For a rectangle of `int64_t` numbers and a screen below 2^63 in each direction: damage_add leaves
-- a damage that contains each pixel of the damage before it and each visible pixel of the
-- rectangle, so what bb_fill_rect changes is in the damage.
pub damage_add_lem :
    (s : Screen) (d : Damage) (x y w h : ℤ)
    → s.width < 2 ^ 63
    → s.height < 2 ^ 63
    → IsI64 x
    → IsI64 y
    → IsI64 w
    → IsI64 h
    → Widened d (damage_add s d x y w h) (Visible s x y w h)
unfolding damage_add
damage_add_lem s d x y w h bw bh ix iy iw ih =
    widened d _ (bb_clip s x y w h) (bb_clip_lem s x y w h bw bh ix iy iw ih)

-- A rectangle that shares a pixel with the damage touches it.
pub damage_touches_lem :
    (d : Damage) (x y w h p q : ℤ)
    → Covers d p q
    → InRect x y w h p q
    → damage_touches d x y w h ≡ true
unfolding damage_touches
damage_touches_lem d x y w h p q c r = rw (c.0, damage_touches) (ground (arith, c.1, r))
