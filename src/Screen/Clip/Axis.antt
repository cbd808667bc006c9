-- ===== src/Screen/Clip/Axis.antt =====
-- kernel/desktop.c, bb_clip: the cut along one axis.
use sol_os.Base.{ℕ, ◌^◌, ◌<◌, ◌↔◌, inl, inr, Option, none, some, arith, Bool-cases}
use sol_os.Base.Int.{
  ℤ, ◌+ℤ◌, ◌-ℤ◌, ◌≤ℤ◌, ◌<ℤ◌, +ℤ_parts, -ℤ_parts, leb_ℤ, IsI64, wrap_i64_id, pos, negsuc,
}
use sol_os.Screen.Clip.{low_edge, high_edge, between, clip_axis}

-- The pixel `p` is one of `w` from `x` on, as integers without a wrap, and lies in the buffer.
abbrev pub OnAxis : ℤ → ℤ → ℤ → ℤ → Type 0
OnAxis x w bound p = (x ≤ℤ p) × (p <ℤ x +ℤ w) × (pos 0 ≤ℤ p) × (p <ℤ bound)

-- What a cut along one axis says.
abbrev pub CutAxis : ℤ → ℤ → ℤ → Option (ℤ × ℤ) → Type 0
CutAxis x w bound none = (p : ℤ) → OnAxis x w bound p → ⊥
CutAxis x w bound (some (l, r)) = (p : ℤ) → ((l ≤ℤ p) × (p <ℤ r)) ↔ OnAxis x w bound p

sub_IsI64 : (x : ℤ) (g : ℕ) → pos 0 ≤ℤ x → IsI64 x → g < 2 ^ 63 → IsI64 (pos g -ℤ x)
unfolding ◌-ℤ◌
sub_IsI64 (pos a) g p h l = ground arith
sub_IsI64 (negsuc a) g p h l = absurd (omega arith)

add_IsI64 : (x w : ℤ) → x <ℤ pos 0 → pos 0 <ℤ w → IsI64 x → IsI64 w → IsI64 (x +ℤ w)
unfolding ◌+ℤ◌
add_IsI64 (negsuc a) (pos b) p q h l = ground arith
add_IsI64 (pos a) w p q h l = absurd (omega arith)
add_IsI64 (negsuc a) (negsuc b) p q h l = absurd (omega arith)

-- With room left, the sum does not reach the bound.
room_IsI64 :
    (x w : ℤ) (g : ℕ) → pos 0 ≤ℤ x → pos 0 <ℤ w → g < 2 ^ 63 → w <ℤ pos g -ℤ x → IsI64 (x +ℤ w)
unfolding ◌+ℤ◌ ◌-ℤ◌
room_IsI64 (pos a) (pos b) g p q h l = ground arith
room_IsI64 (negsuc a) w g p q h l = absurd (omega arith)
room_IsI64 (pos a) (negsuc b) g p q h l = absurd (omega arith)

-- What the edges have to say.
abbrev pub LowEdge : ℤ → ℤ → Type 0
LowEdge x l = (p : ℤ) → (l ≤ℤ p) ↔ ((x ≤ℤ p) × (pos 0 ≤ℤ p))

abbrev pub HighEdge : ℤ → ℤ → ℤ → ℤ → Type 0
HighEdge x w bound r = (p : ℤ) → (p <ℤ r) ↔ ((p <ℤ x +ℤ w) × (p <ℤ bound))

low_edge_lem : (x : ℤ) → LowEdge x (low_edge x)
unfolding low_edge
low_edge_lem x p = ground arith

high_edge_lem :
    (x w : ℤ) (g : ℕ)
    → IsI64 x
    → IsI64 w
    → g < 2 ^ 63
    → pos 0 <ℤ w
    → HighEdge x w (pos g) (high_edge x w (pos g))
unfolding high_edge
high_edge_lem x w g hx hw hg pw p =
    let sum_parts = +ℤ_parts x w in
    let room_parts = -ℤ_parts (pos g) x in
    elim (Bool-cases (leb_ℤ (pos 0) x)) [
      | inl a ↦
          let fits = wrap_i64_id (pos g -ℤ x) (sub_IsI64 x g (ground arith) hx hg) in
          elim (Bool-cases (leb_ℤ (pos g -ℤ x) w)) [
            | inl b ↦ rw (a, fits, b, high_edge) (ground arith)
            | inr b ↦
                let sum =
                  wrap_i64_id (x +ℤ w) (room_IsI64 x w g (ground arith) pw hg (ground arith)) in
                rw (a, fits, b, sum, high_edge) (ground arith)
          ]
      | inr a ↦
          let sum = wrap_i64_id (x +ℤ w) (add_IsI64 x w (ground arith) pw hx hw) in
          rw (a, sum, high_edge) (ground arith)
    ]

between_lem :
    (x w bound l r : ℤ) → LowEdge x l → HighEdge x w bound r → CutAxis x w bound (between l r bound)
unfolding between
between_lem x w bound l r low high = elim (Bool-cases (leb_ℤ bound l)) [
  | inl a ↦ rw (a, between) λ p o. ground (arith, low p, high p)
  | inr a ↦ elim (Bool-cases (leb_ℤ r l)) [
    | inl b ↦ rw (a, b, between) λ p o. ground (arith, low p, high p)
    | inr b ↦ rw (a, b, between) λ p. ground (arith, low p, high p)
  ]
]

pub clip_axis_lem :
    (x w : ℤ) (g : ℕ)
    → IsI64 x
    → IsI64 w
    → g < 2 ^ 63
    → pos 0 <ℤ w
    → CutAxis x w (pos g) (clip_axis x w (pos g))
unfolding clip_axis
clip_axis_lem x w g hx hw hg pw =
    between_lem x w (pos g) _ _ (low_edge_lem x) (high_edge_lem x w g hx hw hg pw)
