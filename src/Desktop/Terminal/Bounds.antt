-- ===== src/Desktop/Terminal/Bounds.antt =====
-- kernel/desktop.c: the terminal stays within its arrays.
use sol_os.Base.{
  subst, ℕ, zero, suc, ◌-◌, ◌/◌, ◌≤◌, ◌<◌, sym, inl, inr, Bool, true, false, ◌&&◌, ◌||◌, List, [],
  ◌∷◌, ◌++◌, arith, ltb, leb, ◌==◌, if◌then◌else◌, Bool-cases, if_true, if_false, length,
  length-append, take, drop, length-take, length-drop, All,
}
use sol_os.Desktop.Terminal.Texts.{
  heap_is, rebooting, unknown, help_1, help_2, about_1, about_2, about_3, about_4, about_5,
  kib_used, kib_free,
}
use sol_os.Desktop.Terminal.{Terminal, scroll_max, line_max, term_append_line, make_room, ul_to_str}
use sol_os.Desktop.Terminal.Shell.{
  Readings, term_print_time, term_print_mem, same_word, print_all, run_command, term_print_date,
  skip_spaces, split_word, echo_line, term_exec, type_char, backspace, term_feed, time_line,
  date_line,
}
use sol_os.Desktop.Terminal.Texts.{
  w_help, w_clear, w_about, w_echo, w_time, w_date, w_mem, w_reboot, prompt, help_1, help_2,
  about_1, about_2, about_3, about_4, about_5, kib_used, kib_free,
}

-- At most 80 lines of at most 87 characters, an input of at most 87 with the cursor in it, and a
-- scroll position within the lines.
unfoldable pub Fits : Terminal → Type 0
Fits w =
    (length w.lines ≤ scroll_max)
    × All (λ l. length l ≤ line_max - 1) w.lines
    × (length w.input ≤ line_max - 1)
    × (w.cursor_col ≤ length w.input)
    × (w.scroll ≤ length w.lines)

All-append : {A : Type 0} (P : A → Type 0) (xs ys : List A) → All P xs → All P ys → All P (xs ++ ys)
All-append P [] ys h k = k
All-append P (x ∷ xs) ys h k = (h.0, All-append P xs ys h.1 k)

All-drop : {A : Type 0} (P : A → Type 0) (n : ℕ) (xs : List A) → All P xs → All P (drop n xs)
All-drop P zero xs h = h
All-drop P (suc n) [] h = tt
All-drop P (suc n) (x ∷ xs) h = All-drop P n xs h.1

All-make_room : (P : List ℕ → Type 0) (ls : List (List ℕ)) → All P ls → All P (make_room ls)
All-make_room P ls h = elim (Bool-cases (leb scroll_max (length ls))) [
  | inl e ↦ subst (λ o. All P o) (sym (if_true _ _ e)) (All-drop P 1 ls h)
  | inr e ↦ subst (λ o. All P o) (sym (if_false _ _ e)) h
]

length-make_room :
    (ls : List (List ℕ)) → length ls ≤ scroll_max → length (make_room ls) < scroll_max
length-make_room ls h = elim (Bool-cases (leb scroll_max (length ls))) [
  | inl e ↦
      subst (λ o. length o < scroll_max) (sym (if_true _ _ e)) (ground (arith, length-drop 1 ls))
  | inr e ↦ subst (λ o. length o < scroll_max) (sym (if_false _ _ e)) (ground arith)
]

term_append_line-Fits : (w : Terminal) (s : List ℕ) → Fits w → Fits (term_append_line w s)
unfolding term_append_line Fits
term_append_line-Fits w s h = (
  omega (
    arith,
    length-append (make_room w.lines) (take (line_max - 1) s ∷ []),
    length-make_room w.lines h.0,
  ),
  All-append _ (make_room w.lines) _ (All-make_room _ w.lines h.1)
      (omega (arith, length-take (line_max - 1) s), tt),
  h.2,
  h.3,
  omega arith,
)

print_all-Fits : (w : Terminal) (ls : List (List ℕ)) → Fits w → Fits (print_all w ls)
unfolding print_all
print_all-Fits w [] h = h
print_all-Fits w (s ∷ ss) h = print_all-Fits (term_append_line w s) ss (term_append_line-Fits w s h)

either-Fits : (b : Bool) (v w : Terminal) → Fits v → Fits w → Fits (if b then v else w)
either-Fits true v w h k = h
either-Fits false v w h k = k

echo-Fits : (w : Terminal) (rest : List ℕ) → Fits w → Fits (echo_line w rest)
unfolding echo_line
echo-Fits w [] h = h
echo-Fits w (c ∷ cs) h = term_append_line-Fits w (c ∷ cs) h

cleared-Fits : (w : Terminal) → Fits w → Fits (record w { lines = []; scroll = 0 })
unfolding Fits
cleared-Fits w h = (omega arith, tt, h.2, h.3, omega arith)

run_command-Fits :
    (r : Readings) (w : Terminal) (tok rest : List ℕ) → Fits w → Fits (run_command r w tok rest)
unfolding run_command term_print_mem term_print_time term_print_date
run_command-Fits r w tok rest h =
    either-Fits (same_word tok w_help) _ _ (print_all-Fits w (help_1 ∷ help_2 ∷ []) h) (
      either-Fits (same_word tok w_clear) _ _ (cleared-Fits w h) (
        either-Fits (same_word tok w_about) _ _
          (print_all-Fits w (about_1 ∷ about_2 ∷ about_3 ∷ about_4 ∷ about_5 ∷ []) h)
          (either-Fits (same_word tok w_echo) _ _ (echo-Fits w rest h) (
            either-Fits (same_word tok w_time) _ _ (term_append_line-Fits w (time_line r.now) h) (
              either-Fits (same_word tok w_date) _ _ (term_append_line-Fits w (date_line r.now) h) (
                either-Fits (same_word tok w_mem) _ _
                  (term_append_line-Fits w
                    (heap_is
                      ++ ul_to_str (r.heap_used / 1024)
                      ++ kib_used
                      ++ ul_to_str (r.heap_free / 1024)
                      ++ kib_free)
                    h)
                  (either-Fits (same_word tok w_reboot) _ _ (term_append_line-Fits w rebooting h)
                    (term_append_line-Fits w unknown h))))))))

entered-Fits :
    (r : Readings) (w : Terminal) (args : List ℕ)
    → Fits w
    → Fits (elim args as (λ x. Terminal) [
      | [] ↦ w
      | c ∷ cs ↦ run_command r w (split_word (c ∷ cs)).0 (skip_spaces (split_word (c ∷ cs)).1)
    ])
entered-Fits r w [] h = h
entered-Fits r w (c ∷ cs) h = run_command-Fits r w _ _ h

emptied-Fits : (w : Terminal) → Fits w → Fits (record w { input = []; cursor_col = 0 })
unfolding Fits
emptied-Fits w h = (h.0, h.1, omega arith, omega arith, h.4)

term_exec-Fits : (r : Readings) (w : Terminal) → Fits w → Fits (term_exec r w)
unfolding term_exec
term_exec-Fits r w h =
    entered-Fits r _ (skip_spaces (take (line_max - 1) w.input))
      (emptied-Fits _ (term_append_line-Fits w (take (line_max - 1) (prompt ++ w.input)) h))

type_char-Fits : (w : Terminal) (c : ℕ) → Fits w → Fits (type_char w c)
unfolding type_char Fits
type_char-Fits w c h =
    let whole = length-append (take w.cursor_col w.input) (c ∷ drop w.cursor_col w.input) in
    let front = length-take w.cursor_col w.input in
    let back = length-drop w.cursor_col w.input in
    elim (Bool-cases (ltb (length w.input) (line_max - 1))) [
      | inl e ↦
          subst Fits (sym (if_true _ _ e))
            (h.0, h.1, ground (arith, h.2, h.3), omega (arith, h.3), h.4)
      | inr e ↦ subst Fits (sym (if_false _ _ e)) h
    ]

backspace-Fits : (w : Terminal) → Fits w → Fits (backspace w)
unfolding backspace Fits
backspace-Fits w h =
    let whole = length-append (take (w.cursor_col - 1) w.input) (drop w.cursor_col w.input) in
    let front = length-take (w.cursor_col - 1) w.input in
    let back = length-drop w.cursor_col w.input in
    elim (Bool-cases (ltb 0 w.cursor_col)) [
      | inl e ↦
          subst Fits (sym (if_true _ _ e))
            (h.0, h.1, omega (arith, h.2, h.3), ground (arith, h.3), h.4)
      | inr e ↦ subst Fits (sym (if_false _ _ e)) h
    ]

moved-Fits :
    (w : Terminal) (scroll cursor : ℕ)
    → Fits w
    → scroll ≤ length w.lines
    → cursor ≤ length w.input
    → Fits (record w { scroll = scroll; cursor_col = cursor })
unfolding Fits
moved-Fits w scroll cursor h k l = (h.0, h.1, h.2, l, k)

scroll_in : (w : Terminal) → Fits w → (w.scroll ≤ length w.lines) × (w.cursor_col ≤ length w.input)
unfolding Fits
scroll_in w h = (h.4, h.3)

-- Whatever key arrives, and whatever the clock and the heap say: the terminal keeps at most 80 lines
-- of at most 87 characters and an input of at most 87, with the cursor in the input and the scroll
-- position within the lines.
pub term_feed-Fits : (r : Readings) (w : Terminal) (c : ℕ) → Fits w → Fits (term_feed r w c)
unfolding term_feed
term_feed-Fits r w c h =
    let at = scroll_in w h in
    either-Fits (leb 32 c && leb c 126) _ _ (type_char-Fits w c h) (
      either-Fits (c == 8) _ _ (backspace-Fits w h) (
        either-Fits (c == 10) _ _ (term_exec-Fits r w h) (
          either-Fits (c == 1 || c == 5) _ _ (moved-Fits w _ w.cursor_col h (omega arith) at.1) (
            either-Fits (c == 2 || c == 6) _ _ (moved-Fits w _ w.cursor_col h (omega arith) at.1) (
              either-Fits (c == 3) _ _ (moved-Fits w w.scroll _ h at.0 (omega arith))
                (either-Fits (c == 4) _ _ (moved-Fits w w.scroll _ h at.0 (ground arith)) h))))))
