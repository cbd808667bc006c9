-- ===== src/Png/Paeth.antt =====
-- kernel/png.c: the predictor of filter 4.
use sol_os.Base.{ℕ, ◌+◌, ◌-◌, ◌≡◌, arith, ltb, if◌then◌else◌}
use sol_os.Base.Int.{◌+ℤ◌, ◌-ℤ◌, +ℤ_parts, -ℤ_parts, pos}
use sol_os.Png.Filters.{distance, paeth}

-- How far apart two numbers are.
abbrev pub gap : ℕ → ℕ → ℕ
gap x y = x - y + (y - x)

-- The nearer of two to a + b - c: a + b is compared with the candidate plus c.
abbrev pub nearer : ℕ → ℕ → ℕ → ℕ → ℕ → ℕ
nearer a b c x y = if ltb (gap (a + b) (y + c)) (gap (a + b) (x + c)) then y else x

-- The Paeth predictor as PNG defines it: of left, above and above left the one nearest to
-- a + b - c, and the earlier one of two that are equally near.
unfoldable pub nearest : ℕ → ℕ → ℕ → ℕ
nearest a b c = nearer a b c (nearer a b c a b) c

distance-gap : (a b c x : ℕ) → distance (pos a +ℤ pos b -ℤ pos c) (pos x) ≡ gap (a + b) (x + c)
distance-gap a b c x =
    let p = pos a +ℤ pos b -ℤ pos c in
    ground (
      arith,
      +ℤ_parts (pos a) (pos b),
      -ℤ_parts (pos a +ℤ pos b) (pos c),
      -ℤ_parts p (pos x),
      -ℤ_parts (pos x) p,
    )

pub paeth-nearest : (a b c : ℕ) → paeth a b c ≡ nearest a b c
unfolding paeth nearest
paeth-nearest a b c =
    ground (arith, distance-gap a b c a, distance-gap a b c b, distance-gap a b c c)
