-- ===== src/Base/Predicates.antt =====
-- Predicates on every element of a list, and lists without repetition.
use Prim.Native.Nat.{ℕ, zero, suc, ◌<◌}
use mathlib.Core.Path.{◌≡◌, sym}
use mathlib.Core.Logic.{◌≢◌}
use mathlib.Core.List.{List, [], ◌∷◌, ◌++◌}
use native.Mathlib.Omega.{arith}
use sol_os.Base.Lists.{length, get_or}

abbrev pub All {ℓ κ} : {A : Type ℓ} → (A → Type κ) → List A → Type κ
All P [] = Unit
All P (x ∷ xs) = P x × All P xs

abbrev pub Distinct {ℓ} : {A : Type ℓ} → List A → Type ℓ
Distinct [] = Unit
Distinct (x ∷ xs) = All (λ y. x ≢ y) xs × Distinct xs

module _ {ℓ} {A : Type ℓ} where
  pub All-imp {κ μ} :
      (P : A → Type κ) (Q : A → Type μ)
      → ((x : A) → P x → Q x)
      → (xs : List A) → All P xs
      → All Q xs
  All-imp P Q f [] h = tt
  All-imp P Q f (x ∷ xs) h = (f x h.0, All-imp P Q f xs h.1)

  pub All-and {κ μ} :
      (P : A → Type κ) (Q : A → Type μ) (xs : List A)
      → All P xs
      → All Q xs
      → All (λ x. P x × Q x) xs
  All-and P Q [] h k = tt
  All-and P Q (x ∷ xs) h k = ((h.0, k.0), All-and P Q xs h.1 k.1)

  pub All-middle {κ} :
      (P : A → Type κ) (xs : List A) (a : A) (ys : List A)
      → All P (xs ++ a ∷ ys)
      → P a × All P (xs ++ ys)
  All-middle P [] a ys h = h
  All-middle P (x ∷ xs) a ys h = let rest = All-middle P xs a ys h.1 in (rest.0, (h.0, rest.1))

  pub Distinct-middle :
      (xs : List A) (a : A) (ys : List A)
      → Distinct (xs ++ a ∷ ys)
      → All (λ y. a ≢ y) (xs ++ ys) × Distinct (xs ++ ys)
  Distinct-middle [] a ys h = h
  Distinct-middle (x ∷ xs) a ys h =
      let head = All-middle (λ y. x ≢ y) xs a ys h.0 in
      let rest = Distinct-middle xs a ys h.1 in ((λ e. head.0 (sym e), rest.0), (head.1, rest.1))

  pub length_middle :
      (xs : List A) (a : A) (ys : List A) → length (xs ++ a ∷ ys) ≡ suc (length (xs ++ ys))
  length_middle [] a ys = omega arith
  length_middle (x ∷ xs) a ys = omega (arith, length_middle xs a ys)

  pub get_or_All {κ} :
      (P : A → Type κ) (xs : List A) (i : ℕ) (d : A) → All P xs → i < length xs → P (get_or xs i d)
  get_or_All P [] i d h l = elim l [ ]
  get_or_All P (x ∷ xs) zero d h l = h.0
  get_or_All P (x ∷ xs) (suc i) d h l = get_or_All P xs i d h.1 (omega arith)
