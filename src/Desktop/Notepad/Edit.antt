-- ===== src/Desktop/Notepad/Edit.antt =====
-- kernel/desktop.c: what typing does to the notepad's text, as the characters before the cursor and
-- those behind it.
use sol_os.Base.{
  ap₂, subst, ℕ, zero, suc, ◌+◌, ◌-◌, ◌≤◌, ◌<◌, ◌≡◌, refl, sym, ap, ◌∙◌, inl, inr, true, ◌&&◌, List,
  [], ◌∷◌, ◌++◌, arith, ltb, leb, if◌then◌else◌, Bool-cases, if_true, if_false,
}
use sol_os.Libc.{Memory, memmove, store}
use sol_os.Libc.Copy.{memmove_lem}
use sol_os.Libc.Text.{bytes}
use sol_os.Desktop.Notepad.{Notepad, max_text, np_insert_char, np_delete_char}

pub bytes-eq :
    (m m' : Memory) (p q n : ℕ)
    → ((i : ℕ) → i < n → m (p + i) ≡ m' (q + i))
    → bytes m p n ≡ bytes m' q n
bytes-eq m m' p q zero h = refl
bytes-eq m m' p q (suc n) h =
    let here : m p ≡ m' q = ap m (omega arith) ∙ h 0 (omega arith) ∙ ap m' (omega arith) in
    ap₂ (λ c cs. c ∷ cs) here
      (bytes-eq m m' (p + 1) (q + 1) n
        λ i l. ap m (omega arith) ∙ h (i + 1) (omega arith) ∙ ap m' (omega arith))

bytes-snoc : (m : Memory) (p n : ℕ) → bytes m p (suc n) ≡ bytes m p n ++ (m (p + n) ∷ [])
bytes-snoc m p zero = ap (λ a. m a ∷ []) (omega arith)
bytes-snoc m p (suc n) =
    let next : p + 1 + n ≡ p + suc n = omega arith in
    ap (λ cs. m p ∷ cs) (bytes-snoc m (p + 1) n ∙ ap (λ a. bytes m (p + 1) n ++ (m a ∷ [])) next)

abbrev pub before : Notepad → List ℕ
before n = bytes n.text 0 n.cursor

abbrev pub after : Notepad → List ℕ
after n = bytes n.text n.cursor (n.len - n.cursor)

-- The cursor is in the text, and the text leaves room for the final 0.
abbrev pub InText : Notepad → Type 0
InText n = (n.cursor ≤ n.len) × (n.len < max_text)

-- The text with the gap for the new character.
abbrev moved : Notepad → Memory
unfolding memmove
moved n =
    if ltb n.cursor n.len then memmove n.text (n.cursor + 1) n.cursor (n.len - n.cursor) else n.text

moved_at :
    (n : Notepad) (a : ℕ)
    → moved n a ≡ (
        if leb (n.cursor + 1) a && ltb a (n.cursor + 1 + (n.len - n.cursor))
        then n.text (n.cursor + (a - (n.cursor + 1)))
        else n.text a)
unfolding moved
moved_at n a = elim (Bool-cases (ltb n.cursor n.len)) [
  | inl e ↦
      ap (λ (m : Memory). m a) (if_true _ _ e)
      ∙ memmove_lem n.text (n.cursor + 1) n.cursor (n.len - n.cursor) a
  | inr e ↦ ap (λ (m : Memory). m a) (if_false _ _ e) ∙ ground arith
]

-- Inserted: the notepad of a text that is not full.
abbrev inserted : Notepad → ℕ → Notepad
unfolding moved
inserted n c = record n {
  text = store (moved n) n.cursor c;
  len = n.len + 1;
  cursor = n.cursor + 1;
  dirty = true;
}

insert_run : (n : Notepad) (c : ℕ) → n.len < max_text - 1 → np_insert_char n c ≡ inserted n c
unfolding np_insert_char inserted moved
insert_run n c h = if_false {b = leb (max_text - 1) n.len} _ _ (ground arith)

insert_before : (n : Notepad) (c : ℕ) → before (inserted n c) ≡ before n ++ (c ∷ [])
unfolding inserted
insert_before n c =
    let text = store (moved n) n.cursor c in
    let more : n.cursor + 1 ≡ suc n.cursor = omega arith in
    ap (bytes text 0) more
    ∙ bytes-snoc text 0 n.cursor
    ∙ ap₂ (λ cs d. cs ++ (d ∷ []))
        (bytes-eq text n.text 0 0 n.cursor λ i l. ground (arith, moved_at n (0 + i))) (ground arith)

insert_after : (n : Notepad) (c : ℕ) → n.cursor ≤ n.len → after (inserted n c) ≡ after n
unfolding inserted
insert_after n c h =
    let text = store (moved n) n.cursor c in
    let same : n.len + 1 - (n.cursor + 1) ≡ n.len - n.cursor = omega arith in
    ap (bytes text (n.cursor + 1)) same
    ∙ bytes-eq text n.text (n.cursor + 1) n.cursor (n.len - n.cursor) λ i l.
      let back : n.cursor + (n.cursor + 1 + i - (n.cursor + 1)) ≡ n.cursor + i = omega arith in
      ground (arith, moved_at n (n.cursor + 1 + i), ap n.text back)

inserted-InText : (n : Notepad) (c : ℕ) → InText n → n.len < max_text - 1 → InText (inserted n c)
unfolding inserted
inserted-InText n c ok h = ground arith

insert_full : (n : Notepad) (c : ℕ) → n.len ≡ max_text - 1 → np_insert_char n c ≡ n
unfolding np_insert_char
insert_full n c h = if_true {b = leb (max_text - 1) n.len} _ _ (ground arith)

abbrev deleted : Notepad → Notepad
unfolding memmove
deleted n = record n {
  text = memmove n.text (n.cursor - 1) n.cursor (n.len - n.cursor);
  len = n.len - 1;
  cursor = n.cursor - 1;
  dirty = true;
}

delete_run : (n : Notepad) → InText n → 0 < n.cursor → np_delete_char n ≡ deleted n
unfolding np_delete_char deleted
delete_run n ok h = if_true {b = ltb 0 n.cursor && ltb 0 n.len} _ _ (ground arith)

delete_none : (n : Notepad) → n.cursor ≡ 0 → np_delete_char n ≡ n
unfolding np_delete_char
delete_none n h = if_false {b = ltb 0 n.cursor && ltb 0 n.len} _ _ (ground arith)

deleted-InText : (n : Notepad) → InText n → InText (deleted n)
unfolding deleted
deleted-InText n ok = ground arith

delete_before :
    (n : Notepad) → 0 < n.cursor → before n ≡ before (deleted n) ++ (n.text (n.cursor - 1) ∷ [])
unfolding deleted
delete_before n h =
    let text = memmove n.text (n.cursor - 1) n.cursor (n.len - n.cursor) in
    let more : n.cursor ≡ suc (n.cursor - 1) = omega arith in
    ap (bytes n.text 0) more
    ∙ bytes-snoc n.text 0 (n.cursor - 1)
    ∙ ap₂ (λ cs d. cs ++ (d ∷ []))
        (bytes-eq n.text text 0 0 (n.cursor - 1) λ i l.
          ground (arith, memmove_lem n.text (n.cursor - 1) n.cursor (n.len - n.cursor) (0 + i)))
        (ap n.text (omega arith))

delete_after : (n : Notepad) → InText n → 0 < n.cursor → after (deleted n) ≡ after n
unfolding deleted
delete_after n ok h =
    let text = memmove n.text (n.cursor - 1) n.cursor (n.len - n.cursor) in
    let same : n.len - 1 - (n.cursor - 1) ≡ n.len - n.cursor = omega arith in
    ap (bytes text (n.cursor - 1)) same
    ∙ bytes-eq text n.text (n.cursor - 1) n.cursor (n.len - n.cursor) λ i l.
      let back : n.cursor + (n.cursor - 1 + i - (n.cursor - 1)) ≡ n.cursor + i = omega arith in
      ground (
        arith,
        memmove_lem n.text (n.cursor - 1) n.cursor (n.len - n.cursor) (n.cursor - 1 + i),
        ap n.text back,
      )

-- For a cursor in the text: a character typed into a text of less than 8191 characters stands before
-- the cursor, behind what stood there, and what is behind the cursor stays; a full text does not
-- change. A deletion takes the last character before the cursor and nothing else, and does nothing at
-- the start of the text. Both leave the cursor in the text.
pub typing_lem :
    (n : Notepad) (c : ℕ)
    → InText n
    → (n.len < max_text - 1
        → (before (np_insert_char n c) ≡ before n ++ (c ∷ []))
          × (after (np_insert_char n c) ≡ after n)
          × InText (np_insert_char n c))
      × (n.len ≡ max_text - 1 → np_insert_char n c ≡ n)
      × (0 < n.cursor
          → (before n ≡ before (np_delete_char n) ++ (n.text (n.cursor - 1) ∷ []))
            × (after (np_delete_char n) ≡ after n)
            × InText (np_delete_char n))
      × (n.cursor ≡ 0 → np_delete_char n ≡ n)
typing_lem n c ok = (
  λ room.
      subst (λ m. (before m ≡ before n ++ (c ∷ [])) × (after m ≡ after n) × InText m)
        (sym (insert_run n c room))
        (insert_before n c, insert_after n c ok.0, inserted-InText n c ok room),
  λ full. insert_full n c full,
  λ some_before.
      subst
        (λ m.
          (before n ≡ before m ++ (n.text (n.cursor - 1) ∷ [])) × (after m ≡ after n) × InText m)
        (sym (delete_run n ok some_before))
        (delete_before n some_before, delete_after n ok some_before, deleted-InText n ok),
  λ start. delete_none n start,
)
