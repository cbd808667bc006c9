-- ===== src/Klog/Digits.antt =====
-- kernel/klog.c, klog_putuint: the digits stand for the number, and fit into the buffer.
use sol_os.Base.{
  subst, ℕ, zero, suc, ◌+◌, ◌-◌, ◌*◌, ◌/◌, ◌%◌, ◌^◌, ◌<◌, ◌≡◌, sym, ap, ◌∙◌, ◌⊎◌, inl, inr, Bool,
  true, false, List, [], ◌∷◌, arith, leb, ◌==◌, if◌then◌else◌, ==_iff, Bool-cases, if_true,
  if_false,
}
use native.Mathlib.Nat.{pow-suc, pow-zero}
use sol_os.Klog.{digit, digits_from, klog_putuint}

-- The value of a digit of either case.
unfoldable pub digit_value : ℕ → ℕ
digit_value c = if leb c 57 then c - 48 else if leb c 70 then c - 55 else c - 87

-- Reads digits, after the value `v` of those before.
unfoldable pub value_from : ℕ → ℕ → List ℕ → ℕ
value_from base v [] = v
value_from base v (c ∷ cs) = value_from base (v * base + digit_value c) cs

digit_value-digit : (upper : Bool) (d : ℕ) → d < 16 → digit_value (digit upper d) ≡ d
unfolding digit_value digit
digit_value-digit true d h = ground arith
digit_value-digit false d h = ground arith

-- For a base with its laws of division.
module _ (base : ℕ) (small : (v : ℕ) → v % base < 16)
    (whole : (v : ℕ) → v / base * base + v % base ≡ v)
    (shorter : (v m : ℕ) → v < m * base → v / base < m) where
  value-digits :
      (n : ℕ) (upper : Bool) (v : ℕ) (acc : List ℕ)
      → v < base ^ n
      → value_from base 0 (digits_from n upper base v acc) ≡ value_from base v acc
  unfolding value_from digits_from
  value-digits zero upper v acc h =
      let none_left : v ≡ 0 = omega (arith, pow-zero base) in
      ap (λ t. value_from base t acc) (sym none_left)
  value-digits (suc n) upper v acc h = elim (Bool-cases (v == 0)) [
    | inl e ↦
        let none_left : v ≡ 0 = (==_iff v 0).0 e in
        rw (e, digits_from) (ap (λ t. value_from base t acc) (sym none_left))
    | inr e ↦
        let d = digit upper (v % base) in
        let one : v / base * base + digit_value d ≡ v =
          ap (λ t. v / base * base + t) (digit_value-digit upper (v % base) (small v)) ∙ whole v in
        rw (e, digits_from)
          (value-digits n upper (v / base) (d ∷ acc)
              (shorter v (base ^ n) (subst (λ t. v < t) (pow-suc base n) h))
            ∙ ap (λ t. value_from base t acc) one)
  ]

value_10 : (upper : Bool) (v : ℕ) → v < 2 ^ 64 → value_from 10 0 (digits_from 32 upper 10 v []) ≡ v
unfolding value_from
value_10 upper v h =
    value-digits 10 (λ v. omega arith) (λ v. omega arith) (λ v m l. omega arith) 32 upper v []
      (omega arith)

value_16 : (upper : Bool) (v : ℕ) → v < 2 ^ 64 → value_from 16 0 (digits_from 32 upper 16 v []) ≡ v
unfolding value_from
value_16 upper v h =
    value-digits 16 (λ v. omega arith) (λ v. omega arith) (λ v m l. omega arith) 32 upper v []
      (omega arith)

value-zero : (base : ℕ) → value_from base 0 (48 ∷ []) ≡ 0
unfolding value_from digit_value
value-zero base = omega arith

-- For a 64-bit number and either base, 10 or 16, in either case: the digits that klog_putuint writes
-- read back as the number. So the 32 digits that its buffer has room for are enough.
pub value-klog_putuint :
    (v base : ℕ) (upper : Bool)
    → v < 2 ^ 64
    → (base ≡ 10) ⊎ (base ≡ 16)
    → value_from base 0 (klog_putuint v base upper) ≡ v
unfolding klog_putuint
value-klog_putuint v base upper h b = elim (Bool-cases (v == 0)) [
  | inl e ↦ ap (value_from base 0) (if_true _ _ e) ∙ value-zero base ∙ sym ((==_iff v 0).0 e)
  | inr e ↦ ap (value_from base 0) (if_false _ _ e) ∙ elim b [
    | inl t ↦
        subst (λ t. value_from t 0 (digits_from 32 upper t v []) ≡ v) (sym t) (value_10 upper v h)
    | inr t ↦
        subst (λ t. value_from t 0 (digits_from 32 upper t v []) ≡ v) (sym t) (value_16 upper v h)
  ]
]
