-- ===== src/Png/Rows.antt =====
-- kernel/png.c: what the filters make of a row, against the definition of PNG.
use sol_os.Base.{
  ℕ, zero, suc, ◌+◌, ◌-◌, ◌/◌, ◌%◌, ◌≤◌, ◌<◌, ◌≡◌, refl, sym, ap, ◌∙◌, ◌≢◌, inl, inr, Option, none,
  some, arith, ℕ_discrete, leb, ◌==◌, if◌then◌else◌, Bool-cases, if_true, if_false,
}
use sol_os.Libc.{Memory, store}
use sol_os.Png.Paeth.{nearest, paeth-nearest}
use sol_os.Png.Filters.{filter_loop, paeth, left_of, above_at, above_left, unfilter}

-- The value is that of the bytes before `cur + i` only.
abbrev Local : ℕ → (Memory → ℕ → ℕ) → Type 0
Local cur guess =
    (b b' : Memory) (i : ℕ) → ((x : ℕ) → x < cur + i → b x ≡ b' x) → guess b i ≡ guess b' i

abbrev added : ℕ → (Memory → ℕ → ℕ) → Memory → ℕ → ℕ
added cur guess b i = (b (cur + i) + guess b i) % 256

filter-before :
    (n : ℕ) (new : Memory → ℕ → ℕ) (m : Memory) (cur i x : ℕ)
    → x < cur + i
    → filter_loop n new m cur i x ≡ m x
unfolding filter_loop
filter-before zero new m cur i x lt = refl
filter-before (suc n) new m cur i x lt =
    ground (arith, filter-before n new (store m (cur + i) (new m i)) cur (i + 1) x (omega arith))

filter-added :
    (n : ℕ) (guess : Memory → ℕ → ℕ) (m : Memory) (cur i j : ℕ)
    → Local cur guess
    → i ≤ j
    → j < i + n
    → filter_loop n (added cur guess) m cur i (cur + j)
      ≡ (m (cur + j) + guess (filter_loop n (added cur guess) m cur i) j) % 256
unfolding filter_loop
filter-added zero guess m cur i j loc le lt = ground arith
filter-added (suc n) guess m cur i j loc le lt =
    let next = store m (cur + i) (added cur guess m i) in
    let out = filter_loop n (added cur guess) next cur (i + 1) in
    let before : (x : ℕ) → x < cur + (i + 1) → out x ≡ next x =
      λ x. filter-before n (added cur guess) next cur (i + 1) x in
    let apart : (x : ℕ) → x < cur + i → out x ≡ m x =
      λ x below. before x (omega arith) ∙ if_false {b = cur + i == x} _ _ (ground arith) in
    elim (ℕ_discrete j i) [
      | yes e ↦ rw e (
          before (cur + i) (omega arith)
          ∙ if_true {b = cur + i == cur + i} _ _ (ground arith)
          ∙ ap (λ g. (m (cur + i) + g) % 256) (sym (loc out m i apart)))
      | no ne ↦
          filter-added n guess next cur (i + 1) j loc (omega arith) (omega arith)
          ∙ ap (λ v. (v + guess out j) % 256) (if_false {b = cur + i == cur + j} _ _ (ground arith))
    ]

-- What PNG adds to a byte: filter types 0 to 4 are None, Sub, Up, Average and Paeth.
abbrev pub predicted : ℕ → ℕ → Option ℕ → ℕ → Memory → ℕ → ℕ
predicted channels cur prev ft b i =
    if ft == 1
    then left_of channels b cur i
    else if ft == 2
    then above_at b prev i
    else if ft == 3
    then (left_of channels b cur i + above_at b prev i) / 2
    else if ft == 4
    then nearest (left_of channels b cur i) (above_at b prev i) (above_left channels b prev i)
    else 0

-- `out` is the row at `cur` of `m` with each byte's prediction added.
abbrev pub Restored : ℕ → ℕ → (Memory → ℕ → ℕ) → Memory → Memory → Type 0
Restored cur stride guess m out =
    (i : ℕ) → i < stride → out (cur + i) ≡ (m (cur + i) + guess out i) % 256

-- The row above, if any, starts before the row.
abbrev pub Earlier : Option ℕ → ℕ → Type 0
Earlier none cur = Unit
Earlier (some row) cur = row < cur

left_of-Local : (channels cur : ℕ) → 0 < channels → Local cur (λ b i. left_of channels b cur i)
left_of-Local channels cur pos b b' i h = elim (Bool-cases (leb channels i)) [
  | inl far ↦
      if_true {b = leb channels i} _ _ far
      ∙ h (cur + i - channels) (ground (arith, far))
      ∙ sym (if_true {b = leb channels i} _ _ far)
  | inr near ↦ if_false {b = leb channels i} _ _ near ∙ sym (if_false {b = leb channels i} _ _ near)
]

above_at-Local :
    (prev : Option ℕ) (cur : ℕ) → Earlier prev cur → Local cur (λ b i. above_at b prev i)
above_at-Local none cur e b b' i h = refl
above_at-Local (some row) cur e b b' i h = h (row + i) (omega arith)

above_left-Local :
    (channels : ℕ) (prev : Option ℕ) (cur : ℕ)
    → 0 < channels
    → Earlier prev cur
    → Local cur (λ b i. above_left channels b prev i)
above_left-Local channels none cur pos e b b' i h = refl
above_left-Local channels (some row) cur pos e b b' i h =
    left_of-Local channels row pos b b' i (λ x lt. h x (omega arith))

whole_row :
    (stride : ℕ) (guess : Memory → ℕ → ℕ) (m : Memory) (cur : ℕ)
    → Local cur guess
    → Restored cur stride guess m (filter_loop stride (added cur guess) m cur 0)
whole_row stride guess m cur loc i lt =
    filter-added stride guess m cur 0 i loc (omega arith) (omega arith)

unchanged : (v : ℕ) → v < 256 → v ≡ (v + 0) % 256
unchanged v lt = omega arith

sub_row :
    (channels stride : ℕ) (m : Memory) (cur : ℕ)
    → 0 < channels
    → 0 < cur
    → channels ≤ stride
    → ((x : ℕ) → m x < 256)
    → Restored cur stride
        (λ b i. left_of channels b cur i)
        m
        (filter_loop (stride - channels) (added cur (λ b i. b (cur + i - channels))) m cur channels)
sub_row channels stride m cur pos start wide bytes i lt =
    let guess : Memory → ℕ → ℕ = λ b k. b (cur + k - channels) in
    let out = filter_loop (stride - channels) (added cur guess) m cur channels in
    elim (Bool-cases (leb channels i)) [
      | inl far ↦
          filter-added (stride - channels) guess m cur channels i
            (λ b b' k h. h (cur + k - channels) (omega arith)) (ground (arith, far)) (omega arith)
          ∙ ap (λ g. (m (cur + i) + g) % 256) (sym (if_true {b = leb channels i} _ _ far))
      | inr near ↦
          filter-before (stride - channels) (added cur guess) m cur channels (cur + i)
            (ground (arith, near))
          ∙ unchanged (m (cur + i)) (bytes (cur + i))
          ∙ ap (λ g. (m (cur + i) + g) % 256) (sym (if_false {b = leb channels i} _ _ near))
    ]

paeth_row :
    (channels stride : ℕ) (m : Memory) (cur : ℕ) (prev : Option ℕ)
    → 0 < channels
    → Earlier prev cur
    → Restored cur stride (predicted channels cur prev 4) m (
        filter_loop stride
          (added cur λ b i.
            paeth (left_of channels b cur i) (above_at b prev i) (above_left channels b prev i))
          m
          cur
          0)
paeth_row channels stride m cur prev start e i lt =
    let guess : Memory → ℕ → ℕ =
      λ b k. paeth (left_of channels b cur k) (above_at b prev k) (above_left channels b prev k) in
    let out = filter_loop stride (added cur guess) m cur 0 in
    whole_row stride guess m cur
      (λ b b' k h. rw (left_of-Local channels cur start b b' k h) (
        rw (above_at-Local prev cur e b b' k h)
          (rw (above_left-Local channels prev cur start e b b' k h))))
      i lt
    ∙ ap (λ g. (m (cur + i) + g) % 256)
        (paeth-nearest (left_of channels out cur i) (above_at out prev i)
          (above_left channels out prev i))

-- For a row of bytes that is at least a pixel wide, does not start at address 0 and has the row above,
-- if any, before it: with a filter type up to 4, and not 2 on the first row, `unfilter` succeeds,
-- and each byte of the row becomes, modulo 256, the byte that was stored plus what PNG predicts
-- from the finished bytes to the left, above and above left.
pub unfilter_lem :
    (channels stride : ℕ) (m : Memory) (cur : ℕ) (prev : Option ℕ) (ft : ℕ)
    → 0 < channels
    → 0 < cur
    → channels ≤ stride
    → Earlier prev cur
    → ((x : ℕ) → m x < 256)
    → ft ≤ 4
    → (prev ≡ none → ft ≢ 2)
    → (out : Memory) × (unfilter channels stride m cur prev ft ≡ some out)
      × Restored cur stride (predicted channels cur prev ft) m out
unfolding unfilter
unfilter_lem channels stride m cur prev zero pos start wide e bytes le first =
    (m, refl, λ i lt. unchanged (m (cur + i)) (bytes (cur + i)))
unfilter_lem channels stride m cur prev (suc zero) pos start wide e bytes le first =
    (_, refl, sub_row channels stride m cur pos start wide bytes)
unfilter_lem channels stride m cur none (suc (suc zero)) pos start wide e bytes le first =
    absurd (first refl refl)
unfilter_lem channels stride m cur (some row) (suc (suc zero)) pos start wide e bytes le first =
    (_, refl, whole_row stride _ m cur (above_at-Local (some row) cur e))
unfilter_lem channels stride m cur prev (suc (suc (suc zero))) pos start wide e bytes le first = (
  _,
  refl,
  whole_row stride _ m cur (λ b b' i h.
      rw (left_of-Local channels cur pos b b' i h) (rw (above_at-Local prev cur e b b' i h))),
)
unfilter_lem channels stride m cur prev (suc (suc (suc (suc zero)))) pos start wide e bytes le
      first =
    (_, refl, paeth_row channels stride m cur prev pos e)
unfilter_lem channels stride m cur prev (suc (suc (suc (suc (suc k))))) pos start wide e bytes le
      first =
    ground arith
