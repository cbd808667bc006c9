-- ===== src/Base/Bits.antt =====
-- Single bits of machine words: what `|`, `&` and `~` of C do to them, at every width.
use Prim.Native.Nat.{ℕ, zero, suc, ◌+◌, ◌-◌, ◌*◌, ◌/◌, ◌%◌, ◌^◌, ◌≤◌, ◌<◌, min, max}
use Prim.Native.Nat.{bit_and, bit_or, digits, bit_and-bitwise, bit_or-bitwise}
use mathlib.Core.Path.{◌≡◌, refl, sym, ap, ◌∙◌}
use native.Mathlib.Nat.{pow-suc, div-div-eq-div-mul, one-le-pow}
use native.Mathlib.Omega.{arith}
use sol_os.Base.Tests.{◌==◌, if◌then◌else◌}

-- `(w >> k) & 1`
abbrev pub bit : ℕ → ℕ → ℕ
bit w k = w / 2 ^ k % 2

bit-none : (w : ℕ) → bit w 0 ≡ w % 2
bit-none w = omega arith

-- Bit `k + 1` of a word is bit `k` of its half.
pub bit-suc : (w k : ℕ) → bit w (suc k) ≡ bit (w / 2) k
bit-suc w k =
    ap (λ (t : ℕ). t % 2)
      (ap (λ (t : ℕ). w / t) (omega (arith, pow-suc 2 k)) ∙ sym (div-div-eq-div-mul w 2 (2 ^ k)))

abbrev less_one : ℕ → ℕ
less_one zero = zero
less_one (suc n) = n

half_fuel : (n a : ℕ) → a ≤ n → a / 2 ≤ less_one n
half_fuel zero a h = omega arith
half_fuel (suc n) a h = omega arith

-- An operation on the digits of two words, with a fuel `n` that covers the first of them.
module _ (z : ℕ → ℕ) (f : ℕ → ℕ → ℕ) (low : (b : ℕ) → z b ≡ z (b / 2) * 2 + f 0 (b % 2))
    (digit : (a b : ℕ) → f (a % 2) (b % 2) < 2) where
  digits-zero : (n b : ℕ) → digits z f n 0 b ≡ z b
  digits-zero zero b = refl
  digits-zero (suc n) b = refl

  digits_halve :
      (n a b : ℕ)
      → a ≤ n
      → digits z f n a b ≡ digits z f (less_one n) (a / 2) (b / 2) * 2 + f (a % 2) (b % 2)
  digits_halve zero zero b h = low b
  digits_halve zero (suc a) b h = elim h [ ]
  digits_halve (suc n) zero b h =
      low b ∙ ap (λ t. t * 2 + f 0 (b % 2)) (sym (digits-zero n (b / 2)))
  digits_halve (suc n) (suc a) b h = refl

  bit-digits : (k n a b : ℕ) → a ≤ n → bit (digits z f n a b) k ≡ f (bit a k) (bit b k)
  bit-digits zero n a b h =
      rw (bit-none (digits z f n a b), bit-none a, bit-none b)
        (omega (arith, digits_halve n a b h, digit a b))
  bit-digits (suc k) n a b h =
      let half : digits z f n a b / 2 ≡ digits z f (less_one n) (a / 2) (b / 2) =
        omega (arith, digits_halve n a b h, digit a b) in
      rw (bit-suc (digits z f n a b) k, bit-suc a k, bit-suc b k, half)
        (bit-digits k (less_one n) (a / 2) (b / 2) (half_fuel n a h))

pub bit-bit_or : (k a b : ℕ) → bit (bit_or a b) k ≡ max (bit a k) (bit b k)
bit-bit_or k a b =
    rw (bit_or-bitwise a b)
      (bit-digits (λ y. y) max (λ b. omega arith) (λ a b. omega arith) k a a b (omega arith))

pub bit-bit_and : (k a b : ℕ) → bit (bit_and a b) k ≡ min (bit a k) (bit b k)
bit-bit_and k a b =
    rw (bit_and-bitwise a b)
      (bit-digits (λ y. 0) min (λ b. omega arith) (λ a b. omega arith) k a a b (omega arith))

pub bit-zero : (k : ℕ) → bit 0 k ≡ 0
bit-zero zero = refl
bit-zero (suc k) = rw (bit-suc 0 k) (bit-zero k)

-- `1ull << i` has one bit set.
pub bit-pow : (i j : ℕ) → bit (2 ^ i) j ≡ (if i == j then 1 else 0)
bit-pow zero zero = refl
bit-pow zero (suc j) = rw (bit-suc 1 j) (ground (arith, bit-zero j))
bit-pow (suc i) zero = ground (arith, pow-suc 2 i)
bit-pow (suc i) (suc j) =
    let half : 2 ^ suc i / 2 ≡ 2 ^ i = omega (arith, pow-suc 2 i) in
    rw (bit-suc (2 ^ suc i) j, half) (ground (arith, bit-pow i j))

-- `~b` on `n` bits flips each of them.
pub bit-complement : (n b j : ℕ) → b < 2 ^ n → j < n → bit (2 ^ n - 1 - b) j ≡ 1 - bit b j
bit-complement zero b j h l = elim l [ ]
bit-complement (suc n) b zero h l = omega (arith, pow-suc 2 n, one-le-pow n 2)
bit-complement (suc n) b (suc j) h l =
    let half : (2 ^ suc n - 1 - b) / 2 ≡ 2 ^ n - 1 - b / 2 = omega (arith, pow-suc 2 n) in
    rw (bit-suc (2 ^ suc n - 1 - b) j, bit-suc b j, half)
      (bit-complement n (b / 2) j (omega (arith, pow-suc 2 n)) (omega arith))

pub bit-lt : (w k : ℕ) → bit w k < 2
bit-lt w k = omega arith
