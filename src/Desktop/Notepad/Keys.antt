-- ===== src/Desktop/Notepad/Keys.antt =====
-- kernel/desktop.c: where the keys up and down take the notepad's cursor.
use sol_os.Base.{
  subst, ℕ, zero, suc, ◌+◌, ◌-◌, ◌≤◌, ◌<◌, ◌≡◌, refl, sym, ap, ◌∙◌, ◌⊎◌, inl, inr, true, ◌&&◌,
  arith, ltb, ◌==◌, if◌then◌else◌, Bool-cases, le-or-lt, if_true, if_false,
}
use sol_os.Base.Int.{◌-ℤ◌, +ℤ_parts, -ℤ_parts, pos}
use sol_os.Libc.{Memory}
use sol_os.Desktop.Notepad.{
  Notepad, count_breaks, np_cursor_row, np_move_cursor, line_start, next_line, key_down,
  np_cursor_col, key_up, col_from,
}
use sol_os.Desktop.Notepad.Edit.{InText}

-- The row only grows from the cursor's row on, so the loop's exit is never taken.
next_line_end : (n : Notepad) (k i row : ℕ) → np_cursor_row n ≤ row → next_line n k i row i ≡ i + k
unfolding next_line
next_line_end n zero i row h = omega arith
next_line_end n (suc k) i row h =
    ground (arith, next_line_end n k (i + 1) (row + 1), next_line_end n k (i + 1) row)

-- A move to a place of the text.
move_to :
    (n : Notepad) (place : ℕ)
    → place ≤ n.len
    → np_move_cursor n (pos place -ℤ pos n.cursor) ≡ record n { cursor = place }
unfolding np_move_cursor
move_to n place h =
    ap (λ c. record n { cursor = c })
      (ground (
        arith,
        -ℤ_parts (pos place) (pos n.cursor),
        +ℤ_parts (pos n.cursor) (pos place -ℤ pos n.cursor),
      ))

-- The key down does not go to the next line: it takes the cursor to the end of the text.
pub key_down_lem : (n : Notepad) → InText n → key_down n ≡ record n { cursor = n.len }
unfolding key_down
key_down_lem n ok =
    let target = next_line n (n.len - n.cursor) n.cursor (np_cursor_row n) n.cursor in
    let end : target ≡ n.len =
      next_line_end n (n.len - n.cursor) n.cursor (np_cursor_row n) (omega arith)
      ∙ omega (arith, ok.0) in
    elim (Bool-cases (ltb n.cursor target)) [
      | inl e ↦
          if_true {b = ltb n.cursor target} _ _ e
          ∙ move_to n target (omega (arith, end))
          ∙ ap (λ c. record n { cursor = c }) end
      | inr e ↦
          if_false {b = ltb n.cursor target} _ _ e
          ∙ ap (λ c. record n { cursor = c }) (ground (arith, end, ok.0))
    ]

breaks_snoc :
    (t : Memory) (p k : ℕ)
    → count_breaks t p (suc k) ≡ count_breaks t p k + (if t (p + k) == 10 then 1 else 0)
unfolding count_breaks
breaks_snoc t p zero = let same : p ≡ p + 0 = omega arith in ground (arith, ap t same)
breaks_snoc t p (suc k) =
    let same : p + 1 + k ≡ p + suc k = omega arith in
    ground (arith, breaks_snoc t (p + 1) k, ap t same)

plus_zero : (j : ℕ) → j + 0 ≡ j
plus_zero j = omega arith

plus_suc : (j k : ℕ) → j + suc k ≡ suc (j + k)
plus_suc j k = omega arith

breaks_mono : (t : Memory) (j k : ℕ) → count_breaks t 0 j ≤ count_breaks t 0 (j + k)
breaks_mono t j zero = ground (arith, ap (count_breaks t 0) (plus_zero j))
breaks_mono t j (suc k) =
    ground (arith, breaks_mono t j k, breaks_snoc t 0 (j + k), ap (count_breaks t 0) (plus_suc j k))

-- The place is the start of a line.
abbrev LineStart : Memory → ℕ → Type 0
LineStart t i = (i ≡ 0) ⊎ (t (i - 1) ≡ 10)

step_count :
    (t : Memory) (i cur : ℕ)
    → cur ≡ count_breaks t 0 i
    → (if t i == 10 then cur + 1 else cur) ≡ count_breaks t 0 (i + 1)
step_count t i cur e =
    let same : 0 + i ≡ i = omega arith in
    let next : i + 1 ≡ suc i = omega arith in
    ground (arith, breaks_snoc t 0 i, ap t same, ap (count_breaks t 0) next)

step_start :
    (t : Memory) (i cur row : ℕ)
    → ltb (cur + 1) row ≡ true
    → (if t i == 10 then cur + 1 else cur) + 1 ≡ row
    → LineStart t (i + 1)
step_start t i cur row b q =
    let same : i + 1 - 1 ≡ i = omega arith in inr (ap t same ∙ ground arith)

line_start_lem :
    (t : Memory) (k i cur row : ℕ)
    → cur ≡ count_breaks t 0 i
    → cur + 1 ≤ row
    → (cur + 1 ≡ row → LineStart t i)
    → count_breaks t 0 (i + k) ≡ row
    → (count_breaks t 0 (line_start t k i cur row i) + 1 ≡ row)
      × (line_start t k i cur row i ≤ i + k)
      × LineStart t (line_start t k i cur row i)
unfolding line_start
line_start_lem t zero i cur row e l s c =
    absurd (omega (arith, ap (count_breaks t 0) (plus_zero i)))
line_start_lem t (suc k) i cur row e l s c = elim (Bool-cases (ltb (cur + 1) row)) [
  | inl b ↦
      let next = if t i == 10 then cur + 1 else cur in
      let place : i + 1 + k ≡ i + suc k = omega arith in
      let count : next ≡ count_breaks t 0 (i + 1) = step_count t i cur e in
      let r =
        line_start_lem t k (i + 1) next row count (ground arith) (λ q. step_start t i cur row b q)
          (ap (count_breaks t 0) place ∙ c) in
      subst (λ o. (count_breaks t 0 o + 1 ≡ row) × (o ≤ i + suc k) × LineStart t o)
        (sym (if_true _ _ b)) (r.0, omega (arith, r.1), r.2)
  | inr b ↦
      subst (λ o. (count_breaks t 0 o + 1 ≡ row) × (o ≤ i + suc k) × LineStart t o)
        (sym (if_false _ _ b)) (ground arith, omega arith, s (ground arith))
]

row_in_text : (n : Notepad) → n.cursor ≤ n.len → np_cursor_row n ≡ count_breaks n.text 0 n.cursor
unfolding np_cursor_row
row_in_text n h = ap (count_breaks n.text 0) (ground arith)

start_col : (t : Memory) (i : ℕ) → LineStart t i → col_from t i ≡ 0
unfolding col_from
start_col t zero h = refl
start_col t (suc k) h =
    let same : suc k - 1 ≡ k = omega arith in
    let broken : t k ≡ 10 = elim h [ inl e ↦ absurd (omega arith) | inr e ↦ sym (ap t same) ∙ e ] in
    ground arith

no_breaks : (t : Memory) → 0 ≡ count_breaks t 0 0
unfolding count_breaks
no_breaks t = refl

-- The place that the loop of the key up finds.
abbrev above : Notepad → ℕ
unfolding line_start
above n = line_start n.text n.cursor 0 0 (np_cursor_row n) 0

above_lem :
    (n : Notepad)
    → InText n
    → 0 < np_cursor_row n
    → (count_breaks n.text 0 (above n) + 1 ≡ np_cursor_row n)
      × (above n < n.cursor)
      × LineStart n.text (above n)
unfolding above
above_lem n ok h =
    let row = row_in_text n ok.0 in
    let r =
      line_start_lem n.text n.cursor 0 0 (np_cursor_row n) (no_breaks n.text) (omega (arith, h))
        (λ e. inl refl) (ap (count_breaks n.text 0) (omega arith) ∙ sym row) in
    (
      r.0,
      elim (le-or-lt n.cursor (above n)) [
        | inl far ↦
            let split : n.cursor + (above n - n.cursor) ≡ above n = omega arith in
            absurd (
              omega (
                arith,
                breaks_mono n.text n.cursor (above n - n.cursor),
                ap (count_breaks n.text 0) split,
                r.0,
                row,
              ))
        | inr near ↦ near
      ],
      r.2,
    )

-- For a cursor in the text: the key up takes it to the start of the line above, and on the first
-- line changes nothing.
pub key_up_lem :
    (n : Notepad)
    → InText n
    → (0 < np_cursor_row n
        → (np_cursor_row (key_up n) + 1 ≡ np_cursor_row n) × (np_cursor_col (key_up n) ≡ 0))
      × (np_cursor_row n ≡ 0 → key_up n ≡ n)
unfolding key_up above np_cursor_col
key_up_lem n ok = (
  λ h.
      let a = above_lem n ok h in
      let run : key_up n ≡ record n { cursor = above n } =
        if_true {b = ltb 0 (np_cursor_row n) && ltb (above n) n.cursor} _ _ (ground arith)
        ∙ move_to n (above n) (omega (arith, a.1, ok.0)) in
      (
        ap (λ m. np_cursor_row m + 1) run
            ∙ ap (λ r. r + 1)
                (row_in_text (record n { cursor = above n }) (omega (arith, a.1, ok.0)))
            ∙ a.0,
        ap np_cursor_col run ∙ start_col n.text (above n) a.2,
      ),
  λ h. if_false {b = ltb 0 (np_cursor_row n) && ltb (above n) n.cursor} _ _ (ground arith),
)
