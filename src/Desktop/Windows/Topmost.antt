-- ===== src/Desktop/Windows/Topmost.antt =====
-- kernel/desktop.c: the search for the topmost window.
use sol_os.Base.{
  subst, ℕ, zero, suc, ◌+◌, ◌≤◌, ◌≡◌, refl, sym, ◌⊎◌, inl, inr, Bool, true, false, ◌&&◌, Option,
  none, some, List, [], ◌∷◌, arith, ltb, Bool-cases, if_true, if_false, get_elem?, All,
}
use sol_os.Base.Int.{ℤ}
use sol_os.Desktop.Windows.{
  Window, prefer, top_from, Desktop, shown, index_of, win_topmost_index, win_contains,
  win_topmost_at,
}

-- The window at `i` passes the test, and no window that passes it has a greater order.
abbrev pub IsTop : (Window → Bool) → List Window → ℕ → Type 0
IsTop test ws i =
    (w : Window) × (get_elem? ws i ≡ some w)
    × (test w ≡ true)
    × All (λ v. test v ≡ true → v.order ≤ w.order) ws

-- What a search finds: a window, or there is none.
abbrev pub Found : (Window → Bool) → List Window → Option ℕ → Type 0
Found test ws none = All (λ v. test v ≡ false) ws
Found test ws (some i) = IsTop test ws i

-- The order of a candidate is at most `o`.
abbrev AtMost : Option (ℕ × ℕ) → ℕ → Type 0
AtMost none o = Unit
AtMost (some (j, b)) o = b ≤ o

abbrev NoCandidate : Option (ℕ × ℕ) → Type 0
NoCandidate none = Unit
NoCandidate (some c) = ⊥

abbrev SameAs : Option (ℕ × ℕ) → ℕ → ℕ → Type 0
SameAs none j o = ⊥
SameAs (some (k, b)) j o = (k ≡ j) × (b ≡ o)

-- The place `j` is `i` and more, and the window there has the order `o`.
abbrev Here : (Window → Bool) → ℕ → List Window → ℕ → ℕ → Type 0
Here test i ws j o =
    (k : ℕ) × (j ≡ i + k)
    × ((w : Window) × (get_elem? ws k ≡ some w) × (test w ≡ true) × (w.order ≡ o))

-- A search from a candidate on.
abbrev FoundFrom : (Window → Bool) → Option (ℕ × ℕ) → ℕ → List Window → Option (ℕ × ℕ) → Type 0
FoundFrom test best i ws none = NoCandidate best × All (λ v. test v ≡ false) ws
FoundFrom test best i ws (some (j, o)) =
    AtMost best o
    × All (λ v. test v ≡ true → v.order ≤ o) ws
    × (SameAs best j o ⊎ Here test i ws j o)

AtMost-trans : (best : Option (ℕ × ℕ)) (a b : ℕ) → AtMost best a → a ≤ b → AtMost best b
AtMost-trans none a b h k = tt
AtMost-trans (some (j, c)) a b h k = omega arith

skip_step :
    (test : Window → Bool) (best : Option (ℕ × ℕ)) (i : ℕ) (w : Window) (ws : List Window)
    (r : Option (ℕ × ℕ))
    → test w ≡ false
    → FoundFrom test best (i + 1) ws r
    → FoundFrom test best i (w ∷ ws) r
skip_step test best i w ws none e f = (f.0, (e, f.1))
skip_step test best i w ws (some (j, o)) e f = (
  f.0,
  (λ t. absurd (ground arith), f.1),
  elim f.2 [ inl b ↦ inl b | inr h ↦ inr (suc h.0, omega arith, h.2) ],
)

-- The candidate becomes the window in front.
take_new :
    (test : Window → Bool) (best : Option (ℕ × ℕ)) (i : ℕ) (w : Window) (ws : List Window)
    (r : Option (ℕ × ℕ))
    → test w ≡ true
    → AtMost best w.order
    → FoundFrom test (some (i, w.order)) (i + 1) ws r
    → FoundFrom test best i (w ∷ ws) r
take_new test best i w ws none e a f = absurd f.0
take_new test best i w ws (some (j, o)) e a f = (
  AtMost-trans best w.order o a f.0,
  (λ t. f.0, f.1),
  inr (elim f.2 [
    | inl b ↦ (zero, omega arith, (w, refl, e, b.1))
    | inr h ↦ (suc h.0, omega arith, h.2)
  ]),
)

-- The candidate stays: the window's order is no greater.
take_old :
    (test : Window → Bool) (b bo i : ℕ) (w : Window) (ws : List Window) (r : Option (ℕ × ℕ))
    → w.order ≤ bo
    → FoundFrom test (some (b, bo)) (i + 1) ws r
    → FoundFrom test (some (b, bo)) i (w ∷ ws) r
take_old test b bo i w ws none l f = absurd f.0
take_old test b bo i w ws (some (j, o)) l f = (
  f.0,
  (λ t. omega arith, f.1),
  elim f.2 [ inl c ↦ inl c | inr h ↦ inr (suc h.0, omega arith, h.2) ],
)

take_step :
    (test : Window → Bool) (best : Option (ℕ × ℕ)) (i : ℕ) (w : Window) (ws : List Window)
    (r : Option (ℕ × ℕ))
    → test w ≡ true
    → FoundFrom test (prefer best i w.order) (i + 1) ws r
    → FoundFrom test best i (w ∷ ws) r
unfolding prefer
take_step test none i w ws r e f = take_new test none i w ws r e tt f
take_step test (some (b, bo)) i w ws r e f = elim (Bool-cases (ltb bo w.order)) [
  | inl l ↦
      take_new test (some (b, bo)) i w ws r e (ground arith)
        (subst (λ c. FoundFrom test c (i + 1) ws r) (if_true _ _ l) f)
  | inr l ↦
      take_old test b bo i w ws r (ground arith)
        (subst (λ c. FoundFrom test c (i + 1) ws r) (if_false _ _ l) f)
]

top_from_lem :
    (test : Window → Bool) (best : Option (ℕ × ℕ)) (i : ℕ) (ws : List Window)
    → FoundFrom test best i ws (top_from test best i ws)
unfolding top_from
top_from_lem test none i [] = (tt, tt)
top_from_lem test (some (j, o)) i [] = (omega arith, tt, inl (refl, refl))
top_from_lem test best i (w ∷ ws) = elim (Bool-cases (test w)) [
  | inl e ↦
      subst (λ b. FoundFrom test best i (w ∷ ws) (top_from test b (i + 1) ws)) (sym (if_true _ _ e))
        (take_step test best i w ws _ e (top_from_lem test (prefer best i w.order) (i + 1) ws))
  | inr e ↦
      subst (λ b. FoundFrom test best i (w ∷ ws) (top_from test b (i + 1) ws))
        (sym (if_false _ _ e)) (skip_step test best i w ws _ e (top_from_lem test best (i + 1) ws))
]

-- From the first window, with no candidate.
found :
    (test : Window → Bool) (ws : List Window) (r : Option (ℕ × ℕ))
    → FoundFrom test none 0 ws r
    → Found test ws (index_of r)
found test ws none f = f.1
found test ws (some (j, o)) f = elim f.2 [
  | inl b ↦ absurd b
  | inr h ↦
      let w = h.2 in
      let zero_more : j ≡ h.0 = omega (arith, h.1) in
      subst (λ k. IsTop test ws k) (sym zero_more)
        (w.0, w.1, w.2, subst (λ k. All (λ v. test v ≡ true → v.order ≤ k) ws) (sym w.3) f.1)
]

-- win_topmost_at gives a window that is shown and contains the point, and no shown window that
-- contains the point has a greater order; it gives none only if no shown window contains the point.
pub win_topmost_at_lem :
    (s : Desktop) (px py : ℤ)
    → Found (λ w. shown w && win_contains w px py) s.wins (win_topmost_at s px py)
unfolding win_topmost_at
win_topmost_at_lem s px py = found _ s.wins _ (top_from_lem _ none 0 s.wins)

pub win_topmost_index_lem : (s : Desktop) → Found shown s.wins (win_topmost_index s)
unfolding win_topmost_index
win_topmost_index_lem s = found _ s.wins _ (top_from_lem shown none 0 s.wins)
