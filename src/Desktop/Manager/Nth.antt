-- ===== src/Desktop/Manager/Nth.antt =====
-- kernel/desktop.c: the file manager's places are those of the files in use, in order.
use sol_os.Base.{
  subst, ℕ, zero, suc, ◌+◌, ◌≤◌, ◌≡◌, refl, sym, inl, inr, true, false, Option, none, some, List,
  [], ◌∷◌, arith, ◌==◌, Bool-cases, if_true, if_false, get_elem?, take,
}
use sol_os.Desktop.Fs.{FsFile}
use sol_os.Desktop.Manager.{fm_count, nth_from, fm_nth}

-- The place `k` in the list: the file at `i` is in use, and `k` of the files in front of it are.
abbrev pub Listed : List FsFile → ℕ → Option ℕ → Type 0
Listed t k none = fm_count t ≤ k
Listed t k (some i) =
    (f : FsFile) × (get_elem? t i ≡ some f) × (f.used ≡ true) × (fm_count (take i t) ≡ k)

-- The same for the loop: `c` files in use are in front of `i`.
abbrev ListedFrom : ℕ → ℕ → List FsFile → ℕ → Option ℕ → Type 0
ListedFrom i c t k none = c + fm_count t ≤ k
ListedFrom i c t k (some j) =
    (d : ℕ) × (j ≡ i + d)
    × ((f : FsFile) × (get_elem? t d ≡ some f) × (f.used ≡ true) × (c + fm_count (take d t) ≡ k))

used_step :
    (i c : ℕ) (f : FsFile) (fs : List FsFile) (k : ℕ) (o : Option ℕ)
    → f.used ≡ true
    → ListedFrom (i + 1) (c + 1) fs k o
    → ListedFrom i c (f ∷ fs) k o
unfolding fm_count
used_step i c f fs k none u h = ground arith
used_step i c f fs k (some j) u h =
    (suc h.0, omega (arith, h.1), (h.2.0, h.2.1, h.2.2, ground (arith, h.2.3)))

free_step :
    (i c : ℕ) (f : FsFile) (fs : List FsFile) (k : ℕ) (o : Option ℕ)
    → f.used ≡ false
    → ListedFrom (i + 1) c fs k o
    → ListedFrom i c (f ∷ fs) k o
unfolding fm_count
free_step i c f fs k none u h = ground arith
free_step i c f fs k (some j) u h =
    (suc h.0, omega (arith, h.1), (h.2.0, h.2.1, h.2.2, ground (arith, h.2.3)))

no_files : fm_count [] ≡ 0
unfolding fm_count
no_files = refl

nth_from_lem : (i c : ℕ) (t : List FsFile) (k : ℕ) → c ≤ k → ListedFrom i c t k (nth_from i c t k)
unfolding nth_from
nth_from_lem i c [] k h = omega (arith, no_files)
nth_from_lem i c (f ∷ fs) k h = elim (Bool-cases f.used) [
  | inl e ↦
      subst (λ o. ListedFrom i c (f ∷ fs) k o) (sym (if_true _ _ e))
        (elim (Bool-cases (c == k)) [
          | inl q ↦
              subst (λ o. ListedFrom i c (f ∷ fs) k o) (sym (if_true _ _ q))
                (zero, omega arith, (f, refl, e, ground (arith, no_files)))
          | inr q ↦
              subst (λ o. ListedFrom i c (f ∷ fs) k o) (sym (if_false _ _ q))
                (used_step i c f fs k _ e (nth_from_lem (i + 1) (c + 1) fs k (ground arith)))
        ])
  | inr e ↦
      subst (λ o. ListedFrom i c (f ∷ fs) k o) (sym (if_false _ _ e))
        (free_step i c f fs k _ e (nth_from_lem (i + 1) c fs k h))
]

from_start : (t : List FsFile) (k : ℕ) (o : Option ℕ) → ListedFrom 0 0 t k o → Listed t k o
from_start t k none h = omega (arith, h)
from_start t k (some j) h =
    let same : h.0 ≡ j = omega (arith, h.1) in
    subst (λ d. Listed t k (some d)) same (h.2.0, h.2.1, h.2.2, omega (arith, h.2.3))

-- fm_nth gives the index of a file in use that has exactly `k` files in use in front of it, and -1
-- only when there are no more than `k` of them.
pub fm_nth_lem : (t : List FsFile) (k : ℕ) → Listed t k (fm_nth t k)
unfolding fm_nth
fm_nth_lem t k = from_start t k _ (nth_from_lem 0 0 t k (omega arith))
