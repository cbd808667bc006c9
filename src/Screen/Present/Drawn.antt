-- ===== src/Screen/Present/Drawn.antt =====
-- kernel/desktop.c, damage_add: the damage stays on the screen.
use sol_os.Base.{
  subst, ℕ, ◌^◌, ◌<◌, sym, inl, inr, Option, none, some, arith, Bool-cases, if_true, if_false,
}
use sol_os.Base.Int.{ℤ, ◌+ℤ◌, ◌-ℤ◌, ◌≤ℤ◌, ◌<ℤ◌, +ℤ_parts, -ℤ_parts, IsI64, pos}
use sol_os.Screen.Clip.{Bounds, Screen, i64_min, i64_max, bb_clip}
use sol_os.Screen.Fill.Rect.{Fits, bounds-Fits}
use sol_os.Screen.Damage.{Damage, merge, damage_add}
use sol_os.Screen.Present.Synced.{OnFrame}
use sol_os.Screen.Clip.Open.{IsOpen, OpenResult, bb_clip-IsOpen}
use sol_os.Screen.Clip.Exact.{Exactly, Visible, bb_clip_lem}

-- A span between two places on an axis.
span_on :
    (low high : ℤ) (n : ℕ)
    → pos 0 ≤ℤ low
    → low ≤ℤ high
    → high ≤ℤ pos n
    → (pos 0 ≤ℤ high -ℤ low) × (low +ℤ (high -ℤ low) ≤ℤ pos n)
span_on low high n h k l = ground (arith, -ℤ_parts high low, +ℤ_parts low (high -ℤ low))

-- A span joined with another: both lie on the axis.
joined_on :
    (a w l r : ℤ) (n : ℕ)
    → pos 0 ≤ℤ a
    → pos 0 ≤ℤ w
    → a +ℤ w ≤ℤ pos n
    → pos 0 ≤ℤ l
    → l <ℤ r
    → r ≤ℤ pos n
    → (pos 0 ≤ℤ i64_min a l)
      × (pos 0 ≤ℤ i64_max (a +ℤ w) r -ℤ i64_min a l)
      × (i64_min a l +ℤ (i64_max (a +ℤ w) r -ℤ i64_min a l) ≤ℤ pos n)
joined_on a w l r n ha hw hn hl hr hrn =
    let parts = +ℤ_parts a w in
    let low : pos 0 ≤ℤ i64_min a l = ground arith in
    let order : i64_min a l ≤ℤ i64_max (a +ℤ w) r = ground arith in
    let high : i64_max (a +ℤ w) r ≤ℤ pos n = ground arith in
    let both = span_on (i64_min a l) (i64_max (a +ℤ w) r) n low order high in (low, both.0, both.1)

-- The merged damage stays on the screen.
merge-OnFrame :
    (s : Screen) (d : Damage) (b : Bounds)
    → OnFrame s d
    → IsOpen b
    → Fits s b
    → OnFrame s (merge d b)
unfolding merge
merge-OnFrame s d b on o fits = elim (Bool-cases d.present) [
  | inl e ↦
      let k = on e in
      subst (λ n. OnFrame s n) (sym (if_true _ _ e))
        λ t.
          let xs = joined_on d.x d.w b.x0 b.x1 s.width k.0 k.1 k.2 fits.0 o.0 fits.2 in
          let ys = joined_on d.y d.h b.y0 b.y1 s.height k.3 k.4 k.5 fits.1 o.1 fits.3 in
          (xs.0, xs.1, xs.2, ys.0, ys.1, ys.2)
  | inr e ↦
      subst (λ n. OnFrame s n) (sym (if_false _ _ e))
        λ t.
          let xs = span_on b.x0 b.x1 s.width fits.0 (ground arith) fits.2 in
          let ys = span_on b.y0 b.y1 s.height fits.1 (ground arith) fits.3 in
          (fits.0, xs.0, xs.1, fits.1, ys.0, ys.1)
]

result-OnFrame :
    (s : Screen) (d : Damage) (x y w h : ℤ) (o : Option Bounds)
    → OnFrame s d
    → OpenResult o
    → Exactly (Visible s x y w h) o
    → OnFrame s (elim o [ none ↦ d | some b ↦ merge d b ])
result-OnFrame s d x y w h none on o f = on
result-OnFrame s d x y w h (some b) on o f = merge-OnFrame s d b on o (bounds-Fits s x y w h b f o)

pub damage_add-OnFrame :
    (s : Screen) (d : Damage) (x y w h : ℤ)
    → s.width < 2 ^ 63
    → s.height < 2 ^ 63
    → IsI64 x
    → IsI64 y
    → IsI64 w
    → IsI64 h
    → OnFrame s d
    → OnFrame s (damage_add s d x y w h)
unfolding damage_add
damage_add-OnFrame s d x y w h bw bh ix iy iw ih on =
    result-OnFrame s d x y w h (bb_clip s x y w h) on (bb_clip-IsOpen s x y w h)
      (bb_clip_lem s x y w h bw bh ix iy iw ih)
