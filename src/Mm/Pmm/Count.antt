-- ===== src/Mm/Pmm/Count.antt =====
-- kernel/mm/pmm.c: the number of free pages that a bitmap shows, and how one bit changes it.
use sol_os.Base.{
  ℕ, zero, suc, ◌+◌, ◌≤◌, ◌<◌, ◌≡◌, refl, ◌≢◌, inl, inr, true, false, none, some, arith, ℕ_discrete,
  if◌then◌else◌, Bool-cases,
}
use sol_os.Mm.Pmm.{Bitmap, bitmap_test, bitmap_set, bitmap_clear, scan}
use sol_os.Mm.Pmm.Bits.{test-set, test-clear}

-- Free pages among the first `n`.
unfoldable pub count_free : Bitmap → ℕ → ℕ
count_free m zero = 0
count_free m (suc n) = if bitmap_test m n then count_free m n else suc (count_free m n)

count_free_congr :
    (m m' : Bitmap) (n : ℕ)
    → ((q : ℕ) → q < n → bitmap_test m' q ≡ bitmap_test m q)
    → count_free m' n ≡ count_free m n
unfolding count_free
count_free_congr m m' zero h = refl
count_free_congr m m' (suc n) h =
    ground (arith, h n (omega arith), count_free_congr m m' n (λ q l. h q (omega arith)))

-- A bitmap that differs at the one page `p`, now free where it was in use.
count_free_one :
    (m m' : Bitmap) (n p : ℕ)
    → p < n
    → bitmap_test m p ≡ true
    → bitmap_test m' p ≡ false
    → ((q : ℕ) → q ≢ p → bitmap_test m' q ≡ bitmap_test m q)
    → count_free m' n ≡ suc (count_free m n)
unfolding count_free
count_free_one m m' zero p l u f h = elim l [ ]
count_free_one m m' (suc n) p l u f h = elim (ℕ_discrete n p) [
  | yes e ↦ ground (arith, count_free_congr m m' n (λ q k. h q (omega arith)))
  | no ne ↦ ground (arith, h n ne, count_free_one m m' n p (omega arith) u f h)
]

-- Clearing the bit of a used page frees exactly one page.
pub count_free-clear :
    (m : Bitmap) (n p : ℕ)
    → p < n
    → bitmap_test m p ≡ true
    → count_free (bitmap_clear m p) n ≡ suc (count_free m n)
count_free-clear m n p l u =
    count_free_one m (bitmap_clear m p) n p l u (ground (arith, test-clear m p p))
      (λ q ne. ground (arith, test-clear m p q))

-- Setting the bit of a free page takes exactly one page.
pub count_free-set :
    (m : Bitmap) (n p : ℕ)
    → p < n
    → bitmap_test m p ≡ false
    → count_free m n ≡ suc (count_free (bitmap_set m p) n)
count_free-set m n p l f =
    count_free_one (bitmap_set m p) m n p l (ground (arith, test-set m p p)) f
      (λ q ne. ground (arith, test-set m p q))

-- There is no free page below `n` exactly when the count is 0; one that there is makes it positive.
pub count_free_pos : (m : Bitmap) (n p : ℕ) → p < n → bitmap_test m p ≡ false → 0 < count_free m n
count_free_pos m n p l f = omega (arith, count_free-set m n p l f)

pub count_free_none :
    (m : Bitmap) (n : ℕ) → ((q : ℕ) → q < n → bitmap_test m q ≡ true) → count_free m n ≡ 0
unfolding count_free
count_free_none m zero h = refl
count_free_none m (suc n) h =
    ground (arith, h n (omega arith), count_free_none m n (λ q l. h q (omega arith)))

-- What the scan finds is free, in range, and the first such page.
pub scan-some :
    (m : Bitmap) (n p : ℕ) {q : ℕ}
    → scan m n p ≡ some q
    → (bitmap_test m q ≡ false) × (p ≤ q) × (q < p + n)
unfolding scan
scan-some m zero p e = ground arith
scan-some m (suc n) p {q} e = elim (Bool-cases (bitmap_test m p)) [
  | inl used ↦ ground (arith, scan-some m n (p + 1) {q = q})
  | inr free ↦ ground arith
]

pub scan-none :
    (m : Bitmap) (n p : ℕ)
    → scan m n p ≡ none
    → (q : ℕ) → p ≤ q
    → q < p + n
    → bitmap_test m q ≡ true
unfolding scan
scan-none m zero p e q l h = absurd (omega arith)
scan-none m (suc n) p e q l h = elim (ℕ_discrete p q) [
  | yes same ↦ ground arith
  | no other ↦ ground (
    arith,
    λ (r : scan m n (p + 1) ≡ none). scan-none m n (p + 1) r q (omega arith) (omega arith),
  )
]
