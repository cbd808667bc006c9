-- ===== src/Net/Bytes/Checksum.antt =====
-- kernel/netstack.c, csum: a packet that carries its checksum sums to 0.
use sol_os.Base.{
  ℕ, zero, suc, ◌+◌, ◌-◌, ◌*◌, ◌/◌, ◌%◌, ◌^◌, ◌≤◌, ◌<◌, ◌≡◌, refl, ap, ◌∙◌, inl, inr, List, [], ◌∷◌,
  ◌++◌, arith, le-or-lt, length, All,
}
use sol_os.Net.Bytes.{w16, sum16, fold_carries, fold_fuel, csum}

abbrev pub IsByte : ℕ → Type 0
IsByte a = a < 256

-- The sum without a wrap.
unfoldable pub total16 : List ℕ → ℕ
total16 [] = 0
total16 (a ∷ []) = a * 256
total16 (a ∷ b ∷ xs) = a * 256 + b + total16 xs

pub total16-lt : (xs : List ℕ) → All IsByte xs → total16 xs ≤ 65535 * length xs
unfolding total16
total16-lt [] h = omega arith
total16-lt (a ∷ []) h = omega (arith, h.0)
total16-lt (a ∷ b ∷ xs) h = omega (arith, h.0, h.1, total16-lt xs h.1.1)

pub sum16-total16 : (xs : List ℕ) (s : ℕ) → total16 xs + s < 2 ^ 32 → sum16 xs s ≡ total16 xs + s
unfolding sum16 total16
sum16-total16 [] s h = omega arith
sum16-total16 (a ∷ []) s h = omega arith
sum16-total16 (a ∷ b ∷ xs) s h =
    let small : (s + (a * 256 + b)) % 2 ^ 32 ≡ s + (a * 256 + b) = omega arith in
    rw small (omega (arith, sum16-total16 xs (s + (a * 256 + b)) (omega arith)))

fold_round : ℕ → ℕ
fold_round s = s % 65536 + s / 65536 % 65536

fold_carries-below : (n s : ℕ) → s < 65536 → fold_carries n s ≡ s
unfolding fold_carries
fold_carries-below zero s h = refl
fold_carries-below (suc n) s h = ground arith

fold_carries-suc : (n s : ℕ) → 65536 ≤ s → fold_carries (suc n) s ≡ fold_carries n (fold_round s)
unfolding fold_carries fold_round
fold_carries-suc n s h = ground arith

-- A round keeps the remainder by 65535.
fold_round-mod : (s : ℕ) → s < 2 ^ 32 → fold_round s % 65535 ≡ s % 65535
unfolding fold_round
fold_round-mod s h = omega arith

fold_round-lt : (s : ℕ) → s < 2 ^ 32 → 65536 ≤ s → (0 < fold_round s) × (fold_round s < 131071)
unfolding fold_round
fold_round-lt s h l = (omega arith, omega arith)

fold_round-lt_twice : (s : ℕ) → s < 131071 → 65536 ≤ s → (0 < fold_round s) × (fold_round s < 65536)
unfolding fold_round
fold_round-lt_twice s h l = (omega arith, omega arith)

-- The value that the loop leaves for `s`.
abbrev pub Folded : ℕ → ℕ → Type 0
Folded s r = (r < 65536) × (r % 65535 ≡ s % 65535) × (0 < s → 0 < r)

fold_one : (s : ℕ) → s < 131071 → Folded s (fold_carries 1 s)
fold_one s h = elim (le-or-lt s 65535) [
  | inl l ↦ rw (fold_carries-below 1 s (omega arith)) (omega arith, refl, λ g. g)
  | inr l ↦
      let b = fold_round-lt_twice s h (omega arith) in
      rw (fold_carries-suc 0 s (omega arith), fold_carries-below 0 (fold_round s) b.1)
        (b.1, fold_round-mod s (omega arith), λ g. b.0)
]

pub fold_carries_lem : (s : ℕ) → s < 2 ^ 32 → Folded s (fold_carries fold_fuel s)
fold_carries_lem s h = elim (le-or-lt s 65535) [
  | inl l ↦ rw (fold_carries-below 2 s (omega arith)) (omega arith, refl, λ g. g)
  | inr l ↦
      let b = fold_round-lt s h (omega arith) in
      let r = fold_one (fold_round s) b.1 in
      rw (fold_carries-suc 1 s (omega arith)) (r.0, r.1 ∙ fold_round-mod s h, λ g. r.2 b.0)
]

pub total16-append :
    (n : ℕ) (xs ys : List ℕ) → length xs ≡ 2 * n → total16 (xs ++ ys) ≡ total16 xs + total16 ys
unfolding total16
total16-append zero [] ys h = omega arith
total16-append zero (a ∷ xs) ys h = absurd (omega arith)
total16-append (suc n) [] ys h = absurd (omega arith)
total16-append (suc n) (a ∷ []) ys h = absurd (omega arith)
total16-append (suc n) (a ∷ b ∷ xs) ys h = omega (arith, total16-append n xs ys (omega arith))

total16-w16 : (v : ℕ) (ys : List ℕ) → v < 65536 → total16 (w16 v ++ ys) ≡ v + total16 ys
unfolding total16 w16
total16-w16 v ys h = omega arith

csum-total16 :
    (xs : List ℕ) (e : ℕ)
    → total16 xs + e < 2 ^ 32
    → csum xs e ≡ 65535 - fold_carries fold_fuel (total16 xs + e) % 65536
unfolding csum
csum-total16 xs e h = rw (sum16-total16 xs e h) refl

-- Two words, one of which is the complement of the other's folded sum.
complement_total : (s r t : ℕ) → 0 < s → Folded s r → Folded (65535 - r + s) t → t ≡ 65535
complement_total s r t h f g = omega arith

csum_field :
    (n v e : ℕ) (pre post : List ℕ)
    → length pre ≡ 2 * n
    → v < 65536
    → v + (total16 pre + total16 post + e) < 2 ^ 32
    → csum (pre ++ (w16 v ++ post)) e
      ≡ 65535 - fold_carries fold_fuel (v + (total16 pre + total16 post + e)) % 65536
csum_field n v e pre post h lv l =
    let total : total16 (pre ++ (w16 v ++ post)) + e ≡ v + (total16 pre + total16 post + e) =
      omega (arith, total16-append n pre (w16 v ++ post) h, total16-w16 v post lv) in
    csum-total16 (pre ++ (w16 v ++ post)) e (omega arith)
    ∙ ap (λ t. 65535 - fold_carries fold_fuel t % 65536) total

csum_no_field :
    (n e : ℕ) (pre post : List ℕ)
    → length pre ≡ 2 * n
    → total16 pre + total16 post + e + 65535 < 2 ^ 32
    → csum (pre ++ (w16 0 ++ post)) e
      ≡ 65535 - fold_carries fold_fuel (total16 pre + total16 post + e)
csum_no_field n e pre post h small =
    let s = total16 pre + total16 post + e in
    let none_there : 0 + s ≡ s = omega arith in
    let below : fold_carries fold_fuel s % 65536 ≡ fold_carries fold_fuel s =
      omega (arith, (fold_carries_lem s (omega arith)).0) in
    csum_field n 0 e pre post h (omega arith) (omega arith)
    ∙ ap (λ t. 65535 - fold_carries fold_fuel t % 65536) none_there
    ∙ ap (λ t. 65535 - t) below

complement_folds :
    (s : ℕ)
    → s + 65535 < 2 ^ 32
    → 0 < s
    → fold_carries fold_fuel (65535 - fold_carries fold_fuel s + s) ≡ 65535
complement_folds s small pos =
    let f = fold_carries_lem s (omega arith) in
    let g = fold_carries_lem (65535 - fold_carries fold_fuel s + s) (omega arith) in
    complement_total s (fold_carries fold_fuel s) _ pos f g

-- A header with a checksum field: `pre` and `post` are the bytes before and after it, in pairs
-- before it, `e` the folded sum of the pseudo header. When the field holds the checksum that csum
-- computes with the field at 0, csum gives 0 for the whole; the length stays below 65536.
pub csum_verifies :
    (n e : ℕ) (pre post : List ℕ)
    → length pre ≡ 2 * n
    → All IsByte pre
    → All IsByte post
    → length pre + length post < 65536
    → e < 65536
    → 0 < total16 pre + total16 post + e
    → csum (pre ++ (w16 (csum (pre ++ (w16 0 ++ post)) e) ++ post)) e ≡ 0
csum_verifies n e pre post h bp bq l le pos =
    let small : total16 pre + total16 post + e + 65535 < 2 ^ 32 =
      omega (arith, total16-lt pre bp, total16-lt post bq) in
    let inner = csum_no_field n e pre post h small in
    let full = complement_folds (total16 pre + total16 post + e) small pos in
    ap (λ (c : ℕ). csum (pre ++ (w16 c ++ post)) e) inner
    ∙ csum_field n (65535 - fold_carries fold_fuel (total16 pre + total16 post + e)) e pre post h
        (omega arith) (omega arith)
    ∙ ap (λ t. 65535 - t % 65536) full

-- The words of a packet add up to -0 in the arithmetic that carries around, as RFC 1071 asks of a
-- receiver: to a multiple of 65535 that is not 0.
abbrev pub Accepted : List ℕ → Type 0
Accepted xs = (0 < total16 xs) × (total16 xs % 65535 ≡ 0)

balanced :
    (s r e f : ℕ)
    → Folded (s + e) r
    → e % 65535 ≡ f % 65535
    → (0 < s)
    → (0 < 65535 - r + s + f) × ((65535 - r + s + f) % 65535 ≡ 0)
balanced s r e f h c l = (omega arith, omega arith)

-- A packet with a pseudo header `front` in front of it: `pre` and `post` are the bytes before and
-- after its checksum field, and `e` is any sum that the pseudo header has up to carries.
pub csum-Accepted :
    (k n e : ℕ) (front pre post : List ℕ)
    → length front ≡ 2 * k
    → length pre ≡ 2 * n
    → total16 pre + total16 post + e + 65535 < 2 ^ 32
    → e % 65535 ≡ total16 front % 65535
    → 0 < total16 pre
    → Accepted (front ++ (pre ++ (w16 (csum (pre ++ (w16 0 ++ post)) e) ++ post)))
csum-Accepted k n e front pre post hf hp small same l =
    let s = total16 pre + total16 post in
    let r = fold_carries fold_fuel (s + e) in
    let folded = fold_carries_lem (s + e) (omega arith) in
    let field : csum (pre ++ (w16 0 ++ post)) e ≡ 65535 - r = csum_no_field n e pre post hp small in
    let whole : total16 (front ++ (pre ++ (w16 (65535 - r) ++ post)))
        ≡ 65535 - r + s + total16 front =
      omega (
        arith,
        total16-append k front (pre ++ (w16 (65535 - r) ++ post)) hf,
        total16-append n pre (w16 (65535 - r) ++ post) hp,
        total16-w16 (65535 - r) post (omega arith),
      ) in
    rw (field, whole) (balanced s r e (total16 front) folded same (omega arith))
