-- ===== src/Mm/Pmm/Bits.antt =====
-- kernel/mm/pmm.c: what setting and clearing a page's bit does to the tests of all pages.
use native.Mathlib.Nat.{pow-le-pow_right}
use sol_os.Base.{
  ℕ, ◌-◌, ◌/◌, ◌%◌, ◌^◌, ◌≤◌, ◌<◌, ◌≡◌, false, ◌||◌, arith, ◌==◌, if◌then◌else◌, bit-bit_or,
  bit-bit_and, bit-pow, bit-complement, bit-lt,
}
use sol_os.Mm.Pmm.{Bitmap, bitmap_test, bitmap_set, bitmap_clear}

pow-lt : (k : ℕ) → k < 64 → 2 ^ k < 2 ^ 64
pow-lt k h =
    let bound : 2 ^ k ≤ 2 ^ 63 = pow-le-pow_right (omega arith) {j = 63} (omega arith) in
    omega arith

pub test-set : (m : Bitmap) (p q : ℕ) → bitmap_test (bitmap_set m p) q ≡ (p == q || bitmap_test m q)
unfolding bitmap_test bitmap_set
test-set m p q = ground (
  arith,
  bit-bit_or (q % 64) (m (p / 64)) (2 ^ (p % 64)),
  bit-pow (p % 64) (q % 64),
  bit-lt (m (q / 64)) (q % 64),
)

pub test-clear :
    (m : Bitmap) (p q : ℕ)
    → bitmap_test (bitmap_clear m p) q ≡ (if p == q then false else bitmap_test m q)
unfolding bitmap_test bitmap_clear
test-clear m p q = ground (
  arith,
  bit-bit_and (q % 64) (m (p / 64)) (2 ^ 64 - 1 - 2 ^ (p % 64)),
  bit-complement 64 (2 ^ (p % 64)) (q % 64) (pow-lt (p % 64) (omega arith)) (omega arith),
  bit-pow (p % 64) (q % 64),
  bit-lt (m (q / 64)) (q % 64),
)
