-- ===== src/Net/Http/Header.antt =====
-- kernel/netstack.c: the search for the end of the HTTP header.
use sol_os.Base.{
  subst, ℕ, zero, suc, ◌+◌, ◌-◌, ◌≤◌, ◌<◌, ◌≡◌, sym, ◌↔◌, inl, inr, true, Option, none, some, arith,
  ℕ_discrete, Bool-cases,
}
use sol_os.Net.Bytes.{Bytes}
use sol_os.Net.Http.{find_end, ends_at}

-- "\r\n\r\n" ends at `i`.
abbrev pub EndsAt : Bytes → ℕ → Type 0
EndsAt b i = (b (i - 3) ≡ 13) × (b (i - 2) ≡ 10) × (b (i - 1) ≡ 13) × (b i ≡ 10)

-- What the search over `n` places from `i` on returns.
abbrev pub Searched : Bytes → ℕ → ℕ → Option ℕ → Type 0
Searched b n i none = (j : ℕ) → i ≤ j → j < i + n → EndsAt b j → ⊥
Searched b n i (some k) =
    (i ≤ k) × (k < i + n) × EndsAt b k × ((j : ℕ) → i ≤ j → j < k → EndsAt b j → ⊥)

ends_at-EndsAt : (b : Bytes) (i : ℕ) → (ends_at b i ≡ true) ↔ EndsAt b i
ends_at-EndsAt b i = ground arith

-- One place more in front, where it does not end.
earlier :
    (b : Bytes) (n i : ℕ) (o : Option ℕ)
    → (EndsAt b i → ⊥)
    → Searched b n (i + 1) o
    → Searched b (suc n) i o
earlier b n i none h s = λ j l m e. elim (ℕ_discrete i j) [
  | yes p ↦ h (subst (EndsAt b) (sym p) e)
  | no p ↦ s j (omega arith) (omega arith) e
]
earlier b n i (some k) h s = (
  omega (arith, s.0),
  omega (arith, s.1),
  s.2,
  λ j l m e. elim (ℕ_discrete i j) [
    | yes p ↦ h (subst (EndsAt b) (sym p) e)
    | no p ↦ s.3 j (omega arith) m e
  ],
)

-- The search over `n` places from `i` on finds the first one where "\r\n\r\n" ends, or there is none
-- among them.
pub find_end_lem : (n i : ℕ) (b : Bytes) → Searched b n i (find_end n i b)
unfolding find_end
find_end_lem zero i b = λ j l h e. omega arith
find_end_lem (suc n) i b = elim (Bool-cases (ends_at b i)) [
  | inl t ↦
      rw (t, find_end) (omega arith, omega arith, (ends_at-EndsAt b i).0 t, λ j l m e. omega arith)
  | inr t ↦
      rw (t, find_end)
        (earlier b n i (find_end n (i + 1) b) (λ e. ground (arith, (ends_at-EndsAt b i).1 e))
          (find_end_lem n (i + 1) b))
]
