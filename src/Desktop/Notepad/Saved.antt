-- ===== src/Desktop/Notepad/Saved.antt =====
-- kernel/desktop.c: a text that the notepad saved and opens again.
use sol_os.Base.{
  subst, ℕ, zero, suc, ◌+◌, ◌-◌, ◌≤◌, ◌<◌, ◌≡◌, refl, sym, ap, ◌∙◌, inl, inr, false, ◌&&◌, Option,
  none, some, List, [], ◌∷◌, arith, ltb, if◌then◌else◌, Bool-cases, if_true, if_false, get_elem?,
  take,
}
use sol_os.Libc.{Memory}
use sol_os.Libc.Text.{bytes}
use sol_os.Desktop.Fs.{FsFile, find_from, claim_slot, same_name, fs_find, fs_create}
use sol_os.Desktop.Notepad.Files.{
  find_or_create, max_fdata, copied, write_file, named, titled, np_save, loaded,
}
use sol_os.Desktop.Notepad.{Notepad, max_text}
use sol_os.Desktop.Notepad.Edit.{bytes-eq}

-- The index, counted from `k`, is that of a file of the table.
abbrev InTable : ℕ → List FsFile → Option ℕ → Type 0
InTable k fs none = Unit
InTable k fs (some i) = (j : ℕ) × (i ≡ k + j) × ((f : FsFile) × (get_elem? fs j ≡ some f))

InTable-later :
    (k : ℕ) (f : FsFile) (fs : List FsFile) (o : Option ℕ)
    → InTable (k + 1) fs o
    → InTable k (f ∷ fs) o
InTable-later k f fs none h = tt
InTable-later k f fs (some i) h = (suc h.0, omega (arith, h.1), h.2)

find_from-InTable : (k : ℕ) (fs : List FsFile) (name : List ℕ) → InTable k fs (find_from k fs name)
unfolding find_from
find_from-InTable k [] name = tt
find_from-InTable k (f ∷ fs) name =
    let rest = InTable-later k f fs _ (find_from-InTable (k + 1) fs name) in
    elim (Bool-cases (f.used && same_name f.name name)) [
      | inl e ↦
          subst (λ o. InTable k (f ∷ fs) o) (sym (if_true _ _ e)) (zero, omega arith, (f, refl))
      | inr e ↦ subst (λ o. InTable k (f ∷ fs) o) (sym (if_false _ _ e)) rest
    ]

-- The same, of a table with its index.
abbrev Claimed : ℕ → Option (ℕ × List FsFile) → Type 0
Claimed k none = Unit
Claimed k (some (i, fs)) = InTable k fs (some i)

behind :
    (k : ℕ) (f : FsFile) (o : Option (ℕ × List FsFile))
    → Claimed (k + 1) o
    → Claimed k (elim o as (λ x. Option (ℕ × List FsFile)) [
      | none ↦ none
      | some (j, fs) ↦ some (j, f ∷ fs)
    ])
behind k f none h = tt
behind k f (some (j, fs)) h = InTable-later k f fs (some j) h

claim_slot-Claimed : (k : ℕ) (fs : List FsFile) (name : List ℕ) → Claimed k (claim_slot k fs name)
unfolding claim_slot
claim_slot-Claimed k [] name = tt
claim_slot-Claimed k (f ∷ fs) name = elim (Bool-cases f.used) [
  | inl e ↦ rw (e, claim_slot) (behind k f _ (claim_slot-Claimed (k + 1) fs name))
  | inr e ↦ rw (e, claim_slot) (zero, omega arith, (_, refl))
]

-- A table with the index that was found in it.
abbrev FoundIn : List FsFile × Option ℕ → Type 0
FoundIn (t, o) = InTable 0 t o

slot_found :
    (t : List FsFile) (o : Option (ℕ × List FsFile))
    → Claimed 0 o
    → FoundIn
        (elim o as (λ x. List FsFile × Option ℕ) [ none ↦ (t, none) | some (j, t1) ↦ (t1, some j) ])
slot_found t none h = tt
slot_found t (some (j, t1)) h = h

created_found :
    (t : List FsFile) (name : List ℕ) (o : Option ℕ)
    → InTable 0 t o
    → FoundIn (elim o as (λ x. List FsFile × Option ℕ) [
      | some i ↦ (t, some i)
      | none ↦ elim (claim_slot 0 t name) [ none ↦ (t, none) | some (j, t1) ↦ (t1, some j) ]
    ])
created_found t name none h = slot_found t (claim_slot 0 t name) (claim_slot-Claimed 0 t name)
created_found t name (some i) h = h

either_found :
    (t : List FsFile) (name : List ℕ) (o : Option ℕ)
    → InTable 0 t o
    → FoundIn
        (elim o as (λ x. List FsFile × Option ℕ) [ some i ↦ (t, some i) | none ↦ fs_create t name ])
unfolding fs_create fs_find
either_found t name none h = created_found t name (find_from 0 t name) (find_from-InTable 0 t name)
either_found t name (some i) h = h

find_or_create-FoundIn : (t : List FsFile) (name : List ℕ) → FoundIn (find_or_create t name)
unfolding find_or_create fs_find
find_or_create-FoundIn t name =
    either_found t name (find_from 0 t name) (find_from-InTable 0 t name)

abbrev pub cut : ℕ → ℕ → ℕ
cut k n = if ltb k n then k else n

take-bytes_short : (m : Memory) (p k n : ℕ) → k ≤ n → take k (bytes m p n) ≡ bytes m p k
take-bytes_short m p zero n h = refl
take-bytes_short m p (suc k) zero h = absurd (omega arith)
take-bytes_short m p (suc k) (suc n) h =
    ap (λ cs. m p ∷ cs) (take-bytes_short m (p + 1) k n (omega arith))

take-bytes_all : (m : Memory) (p k n : ℕ) → n ≤ k → take k (bytes m p n) ≡ bytes m p n
take-bytes_all m p zero zero h = refl
take-bytes_all m p (suc k) zero h = refl
take-bytes_all m p zero (suc n) h = absurd (omega arith)
take-bytes_all m p (suc k) (suc n) h =
    ap (λ cs. m p ∷ cs) (take-bytes_all m (p + 1) k n (omega arith))

take-bytes : (m : Memory) (p k n : ℕ) → take k (bytes m p n) ≡ bytes m p (cut k n)
take-bytes m p k n = elim (Bool-cases (ltb k n)) [
  | inl e ↦ take-bytes_short m p k n (ground arith) ∙ ap (bytes m p) (sym (if_true _ _ e))
  | inr e ↦ take-bytes_all m p k n (ground arith) ∙ ap (bytes m p) (sym (if_false _ _ e))
]

first_file : (g f : FsFile) → some g ≡ some f → g ≡ f
first_file g f h = cc

-- A file with the notepad's text.
abbrev stored : FsFile → Notepad → FsFile
stored f n = record f {
  bytes = copied f.bytes n.text (cut max_fdata n.len);
  len = cut max_fdata n.len;
}

written :
    (t : List FsFile) (i : ℕ) (f : FsFile) (n : Notepad)
    → get_elem? t i ≡ some f
    → get_elem? (write_file t i n) i ≡ some (stored f n)
unfolding write_file
written [] i f n h = absurd (cc)
written (g ∷ gs) zero f n h = ap (λ o. some (stored o n)) (first_file g f h)
written (g ∷ gs) (suc i) f n h = written gs i f n h

stored_bytes :
    (f : FsFile) (n : Notepad)
    → bytes (stored f n).bytes 0 (stored f n).len ≡ take max_fdata (bytes n.text 0 n.len)
stored_bytes f n =
    bytes-eq (stored f n).bytes n.text 0 0 (cut max_fdata n.len)
      (λ i l. if_true {b = ltb (0 + i) (cut max_fdata n.len)} _ _ (ground arith))
    ∙ sym (take-bytes n.text 0 max_fdata n.len)

loaded_bytes :
    (m : Notepad) (i : ℕ) (f : FsFile)
    → f.len < max_text
    → bytes (loaded m i f).text 0 (loaded m i f).len ≡ bytes f.bytes 0 f.len
unfolding loaded
loaded_bytes m i f h =
    let whole : cut (max_text - 1) f.len ≡ f.len = ground arith in
    ap (bytes (loaded m i f).text 0) whole
    ∙ bytes-eq (loaded m i f).text f.bytes 0 0 f.len (λ j l. ground (arith, whole))

-- What a save leaves, when a place for the file was found or not.
abbrev pub SavedTo : Notepad → List FsFile × Option ℕ → Notepad × List FsFile → Type 0
SavedTo n (t1, none) r = (r.1 ≡ t1) × (r.0.dirty ≡ n.dirty)
SavedTo n (t1, some i) r =
    (r.0.dirty ≡ false)
    × ((f : FsFile) × (get_elem? r.1 i ≡ some f)
        × (bytes f.bytes 0 f.len ≡ take max_fdata (bytes n.text 0 n.len))
        × ((m : Notepad)
            → bytes (loaded m i f).text 0 (loaded m i f).len
              ≡ take max_fdata (bytes n.text 0 n.len)))

saved :
    (n : Notepad) (r : List FsFile × Option ℕ)
    → FoundIn r
    → SavedTo n r (elim r.1 as (λ x. Notepad × List FsFile) [
      | none ↦ (named n, r.0)
      | some i ↦ (
        titled (record (named n) { file_idx = some i; dirty = false }),
        write_file r.0 i (named n),
      )
    ])
saved n (t1, none) h = (refl, refl)
saved n (t1, some i) h =
    let at : get_elem? t1 i ≡ some h.2.0 = ap (get_elem? t1) (omega (arith, h.1)) ∙ h.2.1 in
    let f = stored h.2.0 (named n) in
    let short : f.len < max_text = ground arith in
    (
      refl,
      (
        f,
        written t1 i h.2.0 (named n) at,
        stored_bytes h.2.0 (named n),
        λ m. loaded_bytes m i f short ∙ stored_bytes h.2.0 (named n),
      ),
    )

-- np_save writes the first 4096 characters of the text to a file and marks the text as saved,
-- whatever its length: a text of up to 4096 characters comes back when the file is opened, and of a
-- longer one the rest is lost. Without a free place for a new file the text stays marked as changed.
pub np_save_lem :
    (n : Notepad) (t : List FsFile) → SavedTo n (find_or_create t (named n).fname) (np_save n t)
unfolding np_save
np_save_lem n t = saved n _ (find_or_create-FoundIn t (named n).fname)
