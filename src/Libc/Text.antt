-- ===== src/Libc/Text.antt =====
-- libc/string.c: memcmp, strlen, strcmp and strcpy against the bytes that they read.
use sol_os.Base.{
  ap₂, subst, ℕ, zero, suc, ◌+◌, ◌-◌, ◌≤◌, ◌<◌, ◌≡◌, refl, ap, ◌∙◌, ◌≢◌, ◌↔◌, ◌⊎◌, inl, inr, ◌&&◌,
  some, List, [], ◌∷◌, arith, dec_lt, ℕ_discrete, ltb, leb, if◌then◌else◌,
}
use sol_os.Base.Int.{ℤ, sub_ℕ, pos}
use sol_os.Libc.Copy.{Copied}
use sol_os.Libc.{Memory, store, strlen_from, strlen, compare_from, memcmp, strcmp, strcpy}

-- The `k` bytes from `s` on are not 0, and the next one is: a string of length `k`.
abbrev pub CString : Memory → ℕ → ℕ → Type 0
CString m s zero = m s ≡ 0
CString m s (suc k) = (m s ≢ 0) × CString m (s + 1) k

-- The bytes of the string of length `k`.
abbrev pub bytes : Memory → ℕ → ℕ → List ℕ
bytes m s zero = []
bytes m s (suc k) = m s ∷ bytes m (s + 1) k

strlen_from-some :
    (k f : ℕ) (m : Memory) (s i : ℕ)
    → CString m (s + i) k
    → k < f
    → strlen_from f m s i ≡ some (i + k)
unfolding strlen_from
strlen_from-some k zero m s i h l = elim l [ ]
strlen_from-some zero (suc f) m s i h l =
    let e : i ≡ i + 0 = omega arith in ground (arith, ap some e)
strlen_from-some (suc k) (suc f) m s i h l =
    let next : CString m (s + (i + 1)) k = subst (λ t. CString m t k) (omega arith) h.1 in
    let sum : i + 1 + k ≡ i + suc k = omega arith in
    ground (arith, strlen_from-some k f m s (i + 1) next (omega arith), ap some sum)

-- `strlen` finds the length of every string, given fuel for one round more.
pub strlen_lem : (k f : ℕ) (m : Memory) (s : ℕ) → CString m s k → k < f → strlen f m s ≡ some k
unfolding strlen
strlen_lem k f m s h l =
    let start : s ≡ s + 0 = omega arith in
    let sum : 0 + k ≡ k = omega arith in
    strlen_from-some k f m s 0 (subst (λ t. CString m t k) start h) l ∙ ap some sum

-- The two buffers agree from index `i` up to index `j`.
abbrev pub Agree : Memory → ℕ → ℕ → ℕ → ℕ → Type 0
Agree m a b i j = (k : ℕ) → i ≤ k → k < j → m (a + k) ≡ m (b + k)

-- The result of a comparison from index `i` to index `j`: 0 if the buffers agree, else the difference
-- of the first bytes that differ.
abbrev pub Compared : Memory → ℕ → ℕ → ℕ → ℕ → ℤ → Type 0
Compared m a b i j r =
    (Agree m a b i j × (r ≡ pos 0))
    ⊎ ((k : ℕ) × (i ≤ k)
        × (k < j)
        × Agree m a b i k
        × (m (a + k) ≢ m (b + k))
        × (r ≡ sub_ℕ (m (a + k)) (m (b + k))))

Agree-cons :
    (m : Memory) (a b i j : ℕ) → m (a + i) ≡ m (b + i) → Agree m a b (i + 1) j → Agree m a b i j
Agree-cons m a b i j e h k l u = elim (ℕ_discrete i k) [
  | yes same ↦ rw (← same) e
  | no other ↦ h k (omega arith) u
]

Compared-cons :
    (m : Memory) (a b i j : ℕ) {r : ℤ}
    → m (a + i) ≡ m (b + i)
    → Compared m a b (i + 1) j r
    → Compared m a b i j r
Compared-cons m a b i j e (inl (all, z)) = inl (Agree-cons m a b i j e all, z)
Compared-cons m a b i j e (inr (k, l, u, before, ne, z)) =
    inr (k, omega arith, u, Agree-cons m a b i k e before, ne, z)

compare_from-Compared :
    (n i j : ℕ) (m : Memory) (a b : ℕ) → i + n ≡ j → Compared m a b i j (compare_from n i m a b)
unfolding compare_from
compare_from-Compared zero i j m a b e = inl (λ k l u. absurd (omega arith), refl)
compare_from-Compared (suc n) i j m a b e = elim (ℕ_discrete (m (a + i)) (m (b + i))) [
  | yes same ↦
      subst (Compared m a b i j) (ground arith)
        (Compared-cons m a b i j same (compare_from-Compared n (i + 1) j m a b (omega arith)))
  | no differ ↦
      inr (i, omega arith, omega arith, λ k l u. absurd (omega arith), differ, ground arith)
]

-- `memcmp` is 0 if the `n` bytes agree, and else the difference of the first two that differ.
pub memcmp_lem : (m : Memory) (a b n : ℕ) → Compared m a b 0 n (memcmp m a b n)
unfolding memcmp
memcmp_lem m a b n = compare_from-Compared n 0 n m a b (omega arith)

-- On strings of lengths `k` and `l`, `strcmp` returns, and its result is 0 exactly when their bytes agree.
pub strcmp_lem :
    (k l f : ℕ) (m : Memory) (a b : ℕ)
    → CString m a k
    → CString m b l
    → k < f
    → (r : ℤ) × (strcmp f m a b ≡ some r) × ((r ≡ pos 0) ↔ (bytes m a k ≡ bytes m b l))
unfolding strcmp
strcmp_lem zero zero (suc f) m a b ha hb h =
    (sub_ℕ (m a) (m b), ground arith, (λ _. refl, λ _. ground arith))
strcmp_lem zero (suc l) (suc f) m a b ha hb h =
    (sub_ℕ (m a) (m b), ground arith, (λ z. absurd (ground arith), λ z. cc))
strcmp_lem (suc k) zero (suc f) m a b ha hb h =
    (sub_ℕ (m a) (m b), ground arith, (λ z. absurd (ground arith), λ z. cc))
strcmp_lem (suc k) (suc l) (suc f) m a b ha hb h = elim (ℕ_discrete (m a) (m b)) [
  | yes e ↦
      let (r, run, same) = strcmp_lem k l f m (a + 1) (b + 1) ha.1 hb.1 (omega arith) in
      (r, ground arith, (λ z. ap₂ ◌∷◌ e (same.0 z), λ z. same.1 (cc)))
  | no ne ↦
      (sub_ℕ (m a) (m b), ground arith, (λ z. absurd (ground arith), λ z. absurd (ground arith)))
]
strcmp_lem k l zero m a b ha hb h = elim h [ ]

CString-store :
    (k : ℕ) (m : Memory) (s d v : ℕ)
    → (d < s) ⊎ (s + k < d)
    → CString m s k
    → CString (store m d v) s k
CString-store zero m s d v far h = ground arith
CString-store (suc k) m s d v far h =
    (λ z. h.0 (ground arith), CString-store k m (s + 1) d v (omega arith) h.1)

copied_first :
    (m : Memory) (d s a : ℕ)
    → store m d (m s) a ≡ (if leb d a && ltb a (d + (0 + 1)) then m (s + (a - d)) else m a)
copied_first m d s a = elim (ℕ_discrete d a) [
  | yes e ↦ let same : s ≡ s + (a - d) = omega arith in ground (arith, ap m same)
  | no ne ↦ ground arith
]

copied_next :
    (m m' : Memory) (d s k a : ℕ)
    → (d ≤ s) ⊎ (s + suc k < d)
    → m' a ≡ (
        if leb (d + 1) a && ltb a (d + 1 + (k + 1))
        then store m d (m s) (s + 1 + (a - (d + 1)))
        else store m d (m s) a)
    → m' a ≡ (if leb d a && ltb a (d + (suc k + 1)) then m (s + (a - d)) else m a)
copied_next m m' d s k a far h = elim (dec_lt d a) [
  | yes l ↦
      let same : s + 1 + (a - (d + 1)) ≡ s + (a - d) = omega arith in ground (arith, ap m same)
  | no g ↦ elim (ℕ_discrete d a) [
    | yes e ↦ let same : s ≡ s + (a - d) = omega arith in ground (arith, ap m same)
    | no ne ↦ ground arith
  ]
]

-- `strcpy` of a string of length `k` returns, and copies its bytes and the terminator, if the
-- destination does not start inside the string.
pub strcpy_lem :
    (k f : ℕ) (m : Memory) (d s : ℕ)
    → CString m s k
    → (d ≤ s) ⊎ (s + k < d)
    → k < f
    → (m' : Memory) × (strcpy f m d s ≡ some m') × Copied m d s (k + 1) m'
unfolding strcpy
strcpy_lem k zero m d s h far l = elim l [ ]
strcpy_lem zero (suc f) m d s h far l = (store m d (m s), ground arith, λ a. copied_first m d s a)
strcpy_lem (suc k) (suc f) m d s h far l =
    let next : CString (store m d (m s)) (s + 1) k =
      CString-store k m (s + 1) d (m s) (omega arith) h.1 in
    let (m', run, copied) =
      strcpy_lem k f (store m d (m s)) (d + 1) (s + 1) next (omega arith) (omega arith) in
    (m', ground arith, λ a. copied_next m m' d s k a far (copied a))
