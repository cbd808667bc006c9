-- ===== src/Net/Dns/Skip.antt =====
-- kernel/netstack.c, dns_skip_name: the recursion ends, and where it lands.
use sol_os.Base.{
  ℕ, zero, suc, ◌+◌, ◌≤◌, ◌<◌, ◌≡◌, refl, ◌⊎◌, inl, inr, arith, leb, ◌==◌, Bool-cases,
}
use sol_os.Net.Bytes.{Bytes}
use sol_os.Net.Dns.{dns_skip_name}

-- A name is refused, or ends after where it starts and at most one byte past the message.
abbrev pub Landed : ℕ → ℕ → ℕ → Type 0
Landed n off r = (r ≡ 0) ⊎ ((off < r) × (r ≤ n + 1))

farther : (n a b r : ℕ) → a < b → Landed n b r → Landed n a r
farther n a b r h (inl e) = inl e
farther n a b r h (inr (l, m)) = inr (omega arith, m)

skip_fuel :
    (f g : ℕ) (p : Bytes) (n off : ℕ)
    → off < n
    → n < off + f
    → n < off + g
    → (dns_skip_name f p n off ≡ dns_skip_name g p n off) × Landed n off (dns_skip_name f p n off)
unfolding dns_skip_name
skip_fuel zero g p n off l h k = absurd (omega arith)
skip_fuel (suc f) zero p n off l h k = absurd (omega arith)
skip_fuel (suc f) (suc g) p n off l h k = elim (Bool-cases (p off == 0)) [
  | inl a ↦ rw (a, dns_skip_name) (refl, inr (omega arith, omega arith))
  | inr a ↦ elim (Bool-cases (leb 192 (p off))) [
    | inl b ↦ rw (a, b, dns_skip_name) (refl, inr (omega arith, omega arith))
    | inr b ↦ elim (Bool-cases (leb 64 (p off))) [
      | inl c ↦ rw (a, b, c, dns_skip_name) (refl, inl refl)
      | inr c ↦ elim (Bool-cases (leb n (off + 1 + p off))) [
        | inl d ↦ rw (a, b, c, d, dns_skip_name) (refl, inl refl)
        | inr d ↦
            let r =
              skip_fuel f g p n (off + 1 + p off) (ground arith) (omega arith) (omega arith) in
            rw (a, b, c, d, dns_skip_name)
              (r.0, farther n off (off + 1 + p off) _ (omega arith) r.1)
      ]
    ]
  ]
]

-- For an offset inside the message, the fuel that the model gives to dns_skip_name is enough, as any
-- more gives the same result; and that result is 0, or lies after the offset and at most one byte
-- past the message's end.
pub dns_skip_name_lem :
    (k : ℕ) (p : Bytes) (n off : ℕ)
    → off < n
    → (dns_skip_name (n + 1 + k) p n off ≡ dns_skip_name (n + 1) p n off)
      × Landed n off (dns_skip_name (n + 1) p n off)
dns_skip_name_lem k p n off l = (
  (skip_fuel (n + 1 + k) (n + 1) p n off l (omega arith) (omega arith)).0,
  (skip_fuel (n + 1) (n + 1) p n off l (omega arith) (omega arith)).1,
)
