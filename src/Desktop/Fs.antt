-- ===== src/Desktop/Fs.antt =====
-- kernel/desktop.c: the files that the notepad and the file manager keep in memory.
pub mod Lookup
mod Tests
use sol_os.Base.{
  ℕ, zero, suc, ◌+◌, ◌-◌, Bool, true, false, ◌&&◌, Option, none, some, List, [], ◌∷◌, ◌==◌,
  if◌then◌else◌, take,
}

-- `struct fs_file`; the name is without its final 0.
pub record FsFile : Type 0 where
  pub name : List ℕ
  pub bytes : ℕ → ℕ
  pub len : ℕ
  pub used : Bool

abbrev pub max_files : ℕ
max_files = 32

abbrev pub max_fname : ℕ
max_fname = 64

-- `strcmp(a, b) == 0`
unfoldable pub same_name : List ℕ → List ℕ → Bool
same_name [] [] = true
same_name [] (y ∷ ys) = false
same_name (x ∷ xs) [] = false
same_name (x ∷ xs) (y ∷ ys) = x == y && same_name xs ys

-- The first file of that name, at `i` or after it.
unfoldable pub find_from : ℕ → List FsFile → List ℕ → Option ℕ
unfolding same_name
find_from i [] name = none
find_from i (f ∷ fs) name =
    let rest = find_from (i + 1) fs name in if f.used && same_name f.name name then some i else rest

-- `none` is -1.
unfoldable pub fs_find : List FsFile → List ℕ → Option ℕ
unfolding find_from
fs_find t name = find_from 0 t name

-- The first slot that is not in use takes the name, cut to 63 characters.
unfoldable pub claim_slot : ℕ → List FsFile → List ℕ → Option (ℕ × List FsFile)
claim_slot i [] name = none
claim_slot i (f ∷ fs) name = elim f.used [
  | false ↦ some (i, record f { used = true; len = 0; name = take (max_fname - 1) name } ∷ fs)
  | true ↦ elim (claim_slot (i + 1) fs name) [ none ↦ none | some (j, fs') ↦ some (j, f ∷ fs') ]
]

unfoldable pub fs_create : List FsFile → List ℕ → List FsFile × Option ℕ
unfolding fs_find claim_slot
fs_create t name = elim (fs_find t name) [
  | some i ↦ (t, some i)
  | none ↦ elim (claim_slot 0 t name) [ none ↦ (t, none) | some (j, t') ↦ (t', some j) ]
]

unfoldable pub fs_delete : List FsFile → ℕ → List FsFile
fs_delete [] idx = []
fs_delete (f ∷ fs) zero = record { name = []; bytes = λ i. 0; len = 0; used = false } ∷ fs
fs_delete (f ∷ fs) (suc idx) = f ∷ fs_delete fs idx
