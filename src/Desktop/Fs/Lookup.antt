-- ===== src/Desktop/Fs/Lookup.antt =====
-- kernel/desktop.c: a file that was created is found.
use sol_os.Base.{
  ℕ, zero, suc, ◌+◌, ◌-◌, ◌≤◌, ◌<◌, ◌≡◌, refl, ap, ◌⊎◌, inl, inr, true, none, some, List, [], ◌∷◌,
  arith, Bool-cases, Option-cases, length, take,
}
use sol_os.Desktop.Fs.{FsFile, same_name, find_from, fs_find, claim_slot, fs_create, max_fname}

same_name_refl : (xs : List ℕ) → same_name xs xs ≡ true
unfolding same_name
same_name_refl [] = refl
same_name_refl (x ∷ xs) = ground (arith, same_name_refl xs)

take-short : (n : ℕ) (xs : List ℕ) → length xs ≤ n → take n xs ≡ xs
take-short zero [] h = refl
take-short zero (x ∷ xs) h = absurd (omega arith)
take-short (suc n) [] h = refl
take-short (suc n) (x ∷ xs) h = ap (λ t. x ∷ t) (take-short n xs (omega arith))

-- What claiming a slot leaves: nothing, or a table where the name is found in that slot.
claim_slot_cases :
    (i : ℕ) (t : List FsFile) (name : List ℕ)
    → length name < max_fname
    → find_from i t name ≡ none
    → (claim_slot i t name ≡ none)
      ⊎ ((j : ℕ) × (t' : List FsFile) × (claim_slot i t name ≡ some (j, t'))
          × (find_from i t' name ≡ some j))
unfolding claim_slot find_from
claim_slot_cases i [] name l h = inl refl
claim_slot_cases i (f ∷ fs) name l h = elim (Bool-cases f.used) [
  | inl u ↦ elim (claim_slot_cases (i + 1) fs name l (ground arith)) [
    | inl e ↦ inl (ground arith)
    | inr (j, t', e, g) ↦ inr (j, f ∷ t', ground arith, ground arith)
  ]
  | inr u ↦
      let short = take-short (max_fname - 1) name (omega arith) in
      inr (
        i,
        record f { used = true; len = 0; name = take (max_fname - 1) name } ∷ fs,
        ground arith,
        rw short (ground (arith, same_name_refl name)),
      )
]

-- For a name of less than 64 characters, fs_find after fs_create finds what fs_create returned: the
-- file that was there, the slot that it took, or nothing when the table is full.
pub fs_find-fs_create :
    (t : List FsFile) (name : List ℕ)
    → length name < max_fname
    → fs_find (fs_create t name).0 name ≡ (fs_create t name).1
unfolding fs_create fs_find
fs_find-fs_create t name l = elim (Option-cases (fs_find t name)) [
  | inr (i, e) ↦ rw (e, fs_create) e
  | inl e ↦ elim (claim_slot_cases 0 t name l e) [
    | inl c ↦ rw (e, c, fs_create) e
    | inr (j, t', c, g) ↦ rw (e, c, fs_create) g
  ]
]
