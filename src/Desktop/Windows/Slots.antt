-- ===== src/Desktop/Windows/Slots.antt =====
-- kernel/desktop.c: a slot of the table of windows changes.
use sol_os.Base.{
  subst, ℕ, zero, suc, ◌≤◌, ◌<◌, ◌≡◌, refl, sym, ap, ◌∙◌, ◌⊎◌, inl, inr, true, Option, none, some,
  List, [], ◌∷◌, arith, ℕ_discrete, ◌==◌, Bool-cases, if_true, if_false, length, get_elem?, set,
  get_elem?-set_self, get_elem?-set_ne,
}
use sol_os.Desktop.Windows.Ops.{release}
use sol_os.Desktop.Windows.{Window, shown}

-- The window `w` has the place `i`.
abbrev pub At : List Window → ℕ → Window → Type 0
At ws i w = get_elem? ws i ≡ some w

-- No window's order is above the counter.
abbrev pub Bounded : List Window → ℕ → Type 0
Bounded ws c = (i : ℕ) (w : Window) → At ws i w → w.used ≡ true → w.order ≤ c

-- No two windows have the same order.
abbrev pub DistinctOrders : List Window → Type 0
DistinctOrders ws =
    (i j : ℕ) (v w : Window)
    → At ws i v
    → At ws j w
    → v.used ≡ true
    → w.used ≡ true
    → v.order ≡ w.order
    → i ≡ j

-- What the pointer holds is a window that is shown.
abbrev pub Grip : List Window → Option ℕ → Type 0
Grip ws none = Unit
Grip ws (some i) = (w : Window) × At ws i w × (shown w ≡ true)

-- A place after a change of place `i`.
pub set_cases :
    (ws : List Window) (i : ℕ) (v : Window) (j : ℕ) (w : Window)
    → At (set ws i v) j w
    → ((j ≡ i) × (w ≡ v)) ⊎ ((j ≡ i → ⊥) × At ws j w)
set_cases [] i v j w h = absurd (cc)
set_cases (x ∷ xs) zero v zero w h = inl (refl, cc)
set_cases (x ∷ xs) zero v (suc j) w h = inr (λ e. omega arith, h)
set_cases (x ∷ xs) (suc i) v zero w h = inr (λ e. omega arith, h)
set_cases (x ∷ xs) (suc i) v (suc j) w h = elim (set_cases xs i v j w h) [
  | inl e ↦ inl (ap suc e.0, e.1)
  | inr e ↦ inr (λ p. e.0 (omega arith), e.1)
]

-- A changed window keeps the order that it had, or has a new one above the counter.
abbrev pub Reordered : Window → Window → ℕ → ℕ → Type 0
Reordered n v c c' =
    ((v.used ≡ true → n.used ≡ true) × (v.order ≡ n.order) × (c' ≡ c)) ⊎ ((v.order ≡ c') × (c < c'))

pub set-Bounded :
    (ws : List Window) (i : ℕ) (n v : Window) (c c' : ℕ)
    → At ws i n
    → Reordered n v c c'
    → Bounded ws c
    → Bounded (set ws i v) c'
set-Bounded ws i n v c c' at r b j w here u = elim (set_cases ws i v j w here) [
  | inl e ↦ elim r [
    | inl k ↦
        let old = b i n at (k.0 (subst (λ o. o.used ≡ true) e.1 u)) in
        omega (arith, old, k.1, k.2, ap (λ o. o.order) e.1)
    | inr f ↦ omega (arith, f.0, ap (λ o. o.order) e.1)
  ]
  | inr e ↦ elim r [
    | inl k ↦ omega (arith, b j w e.1 u, k.2)
    | inr f ↦ omega (arith, b j w e.1 u, f.1)
  ]
]

-- The changed window against another: their orders differ.
new_apart :
    (ws : List Window) (i j : ℕ) (n v w : Window) (c c' : ℕ)
    → At ws i n
    → Reordered n v c c'
    → Bounded ws c
    → DistinctOrders ws
    → At ws j w
    → v.used ≡ true
    → w.used ≡ true
    → v.order ≡ w.order
    → i ≡ j
new_apart ws i j n v w c c' at (inl k) b d here u uw e = d i j n w at here (k.0 u) uw (sym k.1 ∙ e)
new_apart ws i j n v w c c' at (inr f) b d here u uw e =
    absurd (omega (arith, b j w here uw, f.0, f.1, e))

pub set-DistinctOrders :
    (ws : List Window) (i : ℕ) (n v : Window) (c c' : ℕ)
    → At ws i n
    → Reordered n v c c'
    → Bounded ws c
    → DistinctOrders ws
    → DistinctOrders (set ws i v)
set-DistinctOrders ws i n v c c' at r b d j k a w ha hw ua uw e = elim (set_cases ws i v j a ha) [
  | inl p ↦ elim (set_cases ws i v k w hw) [
    | inl q ↦ p.0 ∙ sym q.0
    | inr q ↦
        p.0
        ∙ new_apart ws i k n v w c c' at r b d q.1 (subst (λ o. o.used ≡ true) p.1 ua) uw
            (sym (ap (λ o. o.order) p.1) ∙ e)
  ]
  | inr p ↦ elim (set_cases ws i v k w hw) [
    | inl q ↦
        sym (
          new_apart ws i j n v a c c' at r b d p.1 (subst (λ o. o.used ≡ true) q.1 uw) ua
            (sym (ap (λ o. o.order) q.1) ∙ sym e))
        ∙ sym q.0
    | inr q ↦ d j k a w p.1 q.1 ua uw e
  ]
]

pub At-range : (ws : List Window) (i : ℕ) (n : Window) → At ws i n → i < length ws
At-range [] i n h = absurd (cc)
At-range (x ∷ xs) zero n h = omega arith
At-range (x ∷ xs) (suc i) n h = omega (arith, At-range xs i n h)

pub same-At : (ws : List Window) (i j : ℕ) (v w : Window) → At ws j v → At ws i w → i ≡ j → v ≡ w
same-At ws i j v w h k e = cc

-- A window that stays on the screen does not slip the pointer's hold.
pub set-Grip :
    (ws : List Window) (i : ℕ) (n v : Window) (g : Option ℕ)
    → At ws i n
    → (shown n ≡ true → shown v ≡ true)
    → Grip ws g
    → Grip (set ws i v) g
set-Grip ws i n v none at h grip = tt
set-Grip ws i n v (some j) at h grip = elim (ℕ_discrete i j) [
  | yes e ↦ (
    v,
    subst (λ k. At (set ws i v) k v) e (get_elem?-set_self ws i v (At-range ws i n at)),
    h (subst (λ o. shown o ≡ true) (same-At ws i j grip.0 n grip.1 at e) grip.2),
  )
  | no e ↦ (grip.0, get_elem?-set_ne ws v e ∙ grip.1, grip.2)
]

-- A window that leaves the screen is let go.
pub release-Grip :
    (ws : List Window) (i : ℕ) (v : Window) (g : Option ℕ)
    → Grip ws g
    → Grip (set ws i v) (release g i)
release-Grip ws i v none grip = tt
release-Grip ws i v (some j) grip = elim (Bool-cases (j == i)) [
  | inl e ↦ subst (λ o. Grip (set ws i v) o) (sym (if_true _ _ e)) tt
  | inr e ↦
      subst (λ o. Grip (set ws i v) o) (sym (if_false _ _ e))
        (grip.0, get_elem?-set_ne ws v (λ q. ground arith) ∙ grip.1, grip.2)
]
