-- ===== src/Desktop/Terminal/Shell.antt =====
-- kernel/desktop.c: the commands and the keys of the terminal.
use sol_os.Base.{
  ℕ, ◌+◌, ◌-◌, ◌/◌, min, Bool, true, false, ◌&&◌, ◌||◌, Option, none, some, List, [], ◌∷◌, ◌++◌,
  ltb, leb, ◌==◌, if◌then◌else◌, length, get_or, take, drop,
}
use sol_os.Arch.Rtc.{Datetime}
use sol_os.Desktop.Terminal.{Terminal, line_max, term_append_line, put_digits, ul_to_str}
use sol_os.Desktop.Terminal.Texts.{
  prompt, help_1, help_2, about_1, about_2, about_3, about_4, about_5, rebooting, unknown, w_help,
  w_clear, w_about, w_echo, w_time, w_date, w_mem, w_reboot, no_time, time_is, date_is, no_date,
  ist, unknown_month, heap_is, kib_used, kib_free, month_names,
}

-- What a command reads: the date and time in India, if the clock answers, and the heap's counters.
pub record Readings : Type 0 where
  pub now : Option Datetime
  pub heap_used : ℕ
  pub heap_free : ℕ

unfoldable pub month_name : ℕ → List ℕ
month_name m =
    if leb 1 m && leb m 12 then get_or month_names (m - 1) unknown_month else unknown_month

unfoldable pub time_line : Option Datetime → List ℕ
unfolding put_digits
time_line none = no_time
time_line (some dt) =
    time_is
    ++ put_digits dt.hour 2
    ++ (58 ∷ [])
    ++ put_digits dt.minute 2
    ++ (58 ∷ [])
    ++ put_digits dt.second 2
    ++ ist

unfoldable pub term_print_time : Readings → Terminal → Terminal
unfolding term_append_line time_line
term_print_time r w = term_append_line w (time_line r.now)

unfoldable pub date_line : Option Datetime → List ℕ
unfolding put_digits month_name
date_line none = no_date
date_line (some dt) =
    date_is
    ++ month_name dt.month
    ++ (32 ∷ [])
    ++ put_digits dt.day 2
    ++ (44 ∷ 32 ∷ [])
    ++ put_digits dt.year 4

unfoldable pub term_print_date : Readings → Terminal → Terminal
unfolding term_append_line date_line
term_print_date r w = term_append_line w (date_line r.now)

unfoldable pub term_print_mem : Readings → Terminal → Terminal
unfolding ul_to_str term_append_line
term_print_mem r w = term_append_line w (
    heap_is
    ++ ul_to_str (r.heap_used / 1024)
    ++ kib_used
    ++ ul_to_str (r.heap_free / 1024)
    ++ kib_free)

unfoldable pub skip_spaces : List ℕ → List ℕ
skip_spaces [] = []
skip_spaces (c ∷ cs) = let rest = skip_spaces cs in if c == 32 then rest else c ∷ cs

-- The characters up to a space, and what is behind them.
unfoldable pub split_word : List ℕ → List ℕ × List ℕ
split_word [] = ([], [])
split_word (c ∷ cs) =
    let rest = split_word cs in if c == 32 then ([], c ∷ cs) else (c ∷ rest.0, rest.1)

-- The word has the command's length and characters.
unfoldable pub same_word : List ℕ → List ℕ → Bool
same_word [] [] = true
same_word [] (y ∷ ys) = false
same_word (x ∷ xs) [] = false
same_word (x ∷ xs) (y ∷ ys) = x == y && same_word xs ys

unfoldable pub echo_line : Terminal → List ℕ → Terminal
unfolding term_append_line
echo_line w [] = w
echo_line w (c ∷ cs) = term_append_line w (c ∷ cs)

unfoldable pub print_all : Terminal → List (List ℕ) → Terminal
unfolding term_append_line
print_all w [] = w
print_all w (s ∷ ss) = print_all (term_append_line w s) ss

-- A command, `tok`, with the text behind it. A reboot ends the run.
unfoldable pub run_command : Readings → Terminal → List ℕ → List ℕ → Terminal
unfolding term_append_line print_all echo_line term_print_time term_print_date term_print_mem
    same_word
run_command r w tok rest =
    if same_word tok w_help
    then print_all w (help_1 ∷ help_2 ∷ [])
    else if same_word tok w_clear
    then record w { lines = []; scroll = 0 }
    else if same_word tok w_about
    then print_all w (about_1 ∷ about_2 ∷ about_3 ∷ about_4 ∷ about_5 ∷ [])
    else if same_word tok w_echo
    then echo_line w rest
    else if same_word tok w_time
    then term_print_time r w
    else if same_word tok w_date
    then term_print_date r w
    else if same_word tok w_mem
    then term_print_mem r w
    else if same_word tok w_reboot
    then term_append_line w rebooting
    else term_append_line w unknown

unfoldable pub term_exec : Readings → Terminal → Terminal
unfolding run_command skip_spaces split_word term_append_line
term_exec r w =
    let echoed = term_append_line w (take (line_max - 1) (prompt ++ w.input)) in
    let args = skip_spaces (take (line_max - 1) w.input) in
    let cleared = record echoed { input = []; cursor_col = 0 } in
    elim args [
      | [] ↦ cleared
      | c ∷ cs ↦ run_command r cleared (split_word (c ∷ cs)).0 (skip_spaces (split_word (c ∷ cs)).1)
    ]

unfoldable pub type_char : Terminal → ℕ → Terminal
type_char w c =
    if ltb (length w.input) (line_max - 1)
    then record w {
      input = take w.cursor_col w.input ++ (c ∷ drop w.cursor_col w.input);
      cursor_col = w.cursor_col + 1;
    }
    else w

unfoldable pub backspace : Terminal → Terminal
backspace w =
    if ltb 0 w.cursor_col
    then record w {
      input = take (w.cursor_col - 1) w.input ++ drop w.cursor_col w.input;
      cursor_col = w.cursor_col - 1;
    }
    else w

unfoldable pub term_feed : Readings → Terminal → ℕ → Terminal
unfolding type_char backspace term_exec
term_feed r w c =
    if leb 32 c && leb c 126
    then type_char w c
    else if c == 8
    then backspace w
    else if c == 10
    then term_exec r w
    else if c == 1 || c == 5
    then record w { scroll = min (w.scroll + 1) (length w.lines) }
    else if c == 2 || c == 6
    then record w { scroll = w.scroll - 1 }
    else if c == 3
    then record w { cursor_col = w.cursor_col - 1 }
    else if c == 4
    then record w {
      cursor_col = if ltb w.cursor_col (length w.input) then w.cursor_col + 1 else w.cursor_col;
    }
    else w
