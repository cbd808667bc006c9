-- ===== src/Libc/Copy.antt =====
-- libc/string.c: memcpy, memmove and memset against what each address holds afterwards.
use sol_os.Base.{
  ℕ, zero, suc, ◌+◌, ◌-◌, ◌%◌, ◌≤◌, ◌≡◌, ap, ◌⊎◌, ◌&&◌, arith, dec_lt, ℕ_discrete, ltb, leb,
  if◌then◌else◌,
}
use sol_os.Libc.{Memory, store, copy_up, copy_down, memcpy, memmove, fill_from, memset}

-- The `n` bytes from `d` on hold what the `n` bytes from `s` on held; nothing else changes.
abbrev pub Copied : Memory → ℕ → ℕ → ℕ → Memory → Type 0
Copied m d s n m' = (a : ℕ) → m' a ≡ (if leb d a && ltb a (d + n) then m (s + (a - d)) else m a)

-- Going up is right when no byte is read after it was written.
copy_up-at :
    (n i : ℕ) (m : Memory) (d s a : ℕ)
    → (d ≤ s) ⊎ (s + i + n ≤ d + i)
    → copy_up n i m d s a ≡ (if leb (d + i) a && ltb a (d + i + n) then m (s + (a - d)) else m a)
unfolding copy_up
copy_up-at zero i m d s a h = ground arith
copy_up-at (suc n) i m d s a h = elim (ℕ_discrete (d + i) a) [
  | yes e ↦
      let here : s + i ≡ s + (a - d) = omega arith in
      ground
        (arith, ap m here, copy_up-at n (i + 1) (store m (d + i) (m (s + i))) d s a (omega arith))
  | no ne ↦ ground (arith, copy_up-at n (i + 1) (store m (d + i) (m (s + i))) d s a (omega arith))
]

copy_down-at :
    (n : ℕ) (m : Memory) (d s a : ℕ)
    → s ≤ d
    → copy_down n m d s a ≡ (if leb d a && ltb a (d + n) then m (s + (a - d)) else m a)
unfolding copy_down
copy_down-at zero m d s a h = ground arith
copy_down-at (suc n) m d s a h = elim (ℕ_discrete (d + n) a) [
  | yes e ↦
      let here : s + n ≡ s + (a - d) = omega arith in
      ground (arith, ap m here, copy_down-at n (store m (d + n) (m (s + n))) d s a h)
  | no ne ↦ ground (arith, copy_down-at n (store m (d + n) (m (s + n))) d s a h)
]

-- `memcpy` copies when the destination does not start inside the source.
pub memcpy_lem : (m : Memory) (d s n : ℕ) → (d ≤ s) ⊎ (s + n ≤ d) → Copied m d s n (memcpy m d s n)
unfolding memcpy
memcpy_lem m d s n h a = ground (arith, copy_up-at n 0 m d s a (omega arith))

-- A buffer holds what it held.
unmoved :
    (m : Memory) (d s n a : ℕ)
    → d ≡ s
    → memmove m d s n a ≡ (if leb d a && ltb a (d + n) then m (s + (a - d)) else m a)
unfolding memmove
unmoved m d s n a e = elim (dec_lt a d) [
  | yes l ↦ ground arith
  | no g ↦ let same : s + (a - d) ≡ a = omega arith in ground (arith, ap m same)
]

-- `memmove` copies whatever the overlap.
pub memmove_lem : (m : Memory) (d s n : ℕ) → Copied m d s n (memmove m d s n)
unfolding memmove
memmove_lem m d s n a = elim (dec_lt d s) [
  | yes l ↦ ground (arith, copy_up-at n 0 m d s a (omega arith))
  | no g ↦ elim (ℕ_discrete d s) [
    | yes e ↦ unmoved m d s n a e
    | no ne ↦ ground (arith, copy_down-at n m d s a (omega arith))
  ]
]

fill_from-at :
    (n i : ℕ) (m : Memory) (d c a : ℕ)
    → fill_from n i m d c a ≡ (if leb (d + i) a && ltb a (d + i + n) then c % 256 else m a)
unfolding fill_from
fill_from-at zero i m d c a = ground arith
fill_from-at (suc n) i m d c a =
    ground (arith, fill_from-at n (i + 1) (store m (d + i) (c % 256)) d c a)

-- `memset` writes the low byte of `c` to `n` bytes, and nothing else.
pub memset_lem :
    (m : Memory) (d c n a : ℕ)
    → memset m d c n a ≡ (if leb d a && ltb a (d + n) then c % 256 else m a)
unfolding memset
memset_lem m d c n a = ground (arith, fill_from-at n 0 m d c a)
