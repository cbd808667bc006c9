-- ===== src/Screen/Clip/Open.antt =====
-- kernel/desktop.c, bb_clip: a result is never empty.
use sol_os.Base.{
  subst, ℕ, sym, inl, inr, ◌||◌, Option, none, some, arith, if◌then◌else◌, Bool-cases, if_true,
  if_false,
}
use sol_os.Base.Int.{ℤ, ◌<ℤ◌, ltb_ℤ, leb_ℤ, pos}
use sol_os.Screen.Clip.{
  Bounds, Screen, between, clip_axis, narrow, clip_screen, bb_clip, low_edge, high_edge,
}

abbrev OpenAxis : Option (ℤ × ℤ) → Type 0
OpenAxis none = Unit
OpenAxis (some (l, r)) = l <ℤ r

-- The bounds have a pixel.
abbrev pub IsOpen : Bounds → Type 0
IsOpen b = (b.x0 <ℤ b.x1) × (b.y0 <ℤ b.y1)

abbrev pub OpenResult : Option Bounds → Type 0
OpenResult none = Unit
OpenResult (some b) = IsOpen b

between-OpenAxis : (low high bound : ℤ) → OpenAxis (between low high bound)
unfolding between
between-OpenAxis low high bound = elim (Bool-cases (leb_ℤ bound low)) [
  | inl a ↦ rw (a, between) tt
  | inr a ↦ elim (Bool-cases (leb_ℤ high low)) [
    | inl b ↦ rw (a, b, between) tt
    | inr b ↦ rw (a, b, between) (ground arith)
  ]
]

both_open :
    (a b : Option (ℤ × ℤ))
    → OpenAxis a
    → OpenAxis b
    → OpenResult (elim a [
      | none ↦ none
      | some (x0, x1) ↦ elim b [
        | none ↦ none
        | some (y0, y1) ↦ some (record { x0 = x0; y0 = y0; x1 = x1; y1 = y1 })
      ]
    ])
both_open none b f g = tt
both_open (some (l, r)) none f g = tt
both_open (some (l, r)) (some (t, u)) f g = (f, g)

clip_screen-OpenResult :
    (width height : ℕ) (x y w h : ℤ) → OpenResult (clip_screen width height x y w h)
unfolding clip_screen clip_axis
clip_screen-OpenResult width height x y w h =
    elim (Bool-cases (leb_ℤ w (pos 0) || leb_ℤ h (pos 0))) [
      | inl e ↦ rw (e, clip_screen) tt
      | inr e ↦
          rw (e, clip_screen)
            (both_open (clip_axis x w (pos width)) (clip_axis y h (pos height))
              (between-OpenAxis (low_edge x) (high_edge x w (pos width)) (pos width))
              (between-OpenAxis (low_edge y) (high_edge y h (pos height)) (pos height)))
    ]

kept_open : (b : Bounds) → OpenResult (if leb_ℤ b.x1 b.x0 || leb_ℤ b.y1 b.y0 then none else some b)
kept_open b = elim (Bool-cases (leb_ℤ b.x1 b.x0 || leb_ℤ b.y1 b.y0)) [
  | inl e ↦ rw e tt
  | inr e ↦ rw e (ground arith)
]

narrow-OpenResult : (c b : Bounds) → OpenResult (narrow c b)
unfolding narrow
narrow-OpenResult c b = kept_open (record {
  x0 = if ltb_ℤ b.x0 c.x0 then c.x0 else b.x0;
  y0 = if ltb_ℤ b.y0 c.y0 then c.y0 else b.y0;
  x1 = if ltb_ℤ c.x1 b.x1 then c.x1 else b.x1;
  y1 = if ltb_ℤ c.y1 b.y1 then c.y1 else b.y1;
})

result_open :
    (s : Screen) (o : Option Bounds)
    → OpenResult o
    → OpenResult
        (elim o [ none ↦ none | some b ↦ if s.clip_active then narrow s.clip b else some b ])
result_open s none h = tt
result_open s (some b) h = elim (Bool-cases s.clip_active) [
  | inl e ↦ subst (λ o. OpenResult o) (sym (if_true _ _ e)) (narrow-OpenResult s.clip b)
  | inr e ↦ subst (λ o. OpenResult o) (sym (if_false _ _ e)) h
]

pub bb_clip-IsOpen : (s : Screen) (x y w h : ℤ) → OpenResult (bb_clip s x y w h)
unfolding bb_clip
bb_clip-IsOpen s x y w h = result_open s _ (clip_screen-OpenResult s.width s.height x y w h)
