-- ===== src/Desktop/Terminal.antt =====
-- kernel/desktop.c: the terminal's lines, its input and its commands. The input is the list of its
-- characters, without what the array holds behind them.
pub mod Texts
pub mod Shell
pub mod Bounds
mod Tests
use sol_os.Base.{
  ℕ, zero, suc, ◌+◌, ◌-◌, ◌/◌, ◌%◌, List, [], ◌∷◌, ◌++◌, leb, ◌==◌, if◌then◌else◌, length, take,
  drop, replicate,
}

-- The `term_` fields of `struct desktop_window`; the oldest line comes first.
pub record Terminal : Type 0 where
  pub lines : List (List ℕ)
  pub scroll : ℕ
  pub input : List ℕ
  pub cursor_col : ℕ

abbrev pub scroll_max : ℕ
scroll_max = 80

abbrev pub line_max : ℕ
line_max = 88

-- A full scrollback loses its oldest line.
abbrev pub make_room : List (List ℕ) → List (List ℕ)
make_room ls = if leb scroll_max (length ls) then drop 1 ls else ls

unfoldable pub term_append_line : Terminal → List ℕ → Terminal
term_append_line w s = record w {
  lines = make_room w.lines ++ (take (line_max - 1) s ∷ []);
  scroll = 0;
}

-- The digits of `v`, the last one first, at most `n`.
unfoldable pub last_digits : ℕ → ℕ → List ℕ
last_digits zero v = []
last_digits (suc n) v = if v == 0 then [] else (48 + v % 10) ∷ last_digits n (v / 10)

unfoldable pub reversed : List ℕ → List ℕ → List ℕ
reversed [] out = out
reversed (c ∷ cs) out = reversed cs (c ∷ out)

-- What `put_digits` writes for a number that is not negative.
unfoldable pub put_digits : ℕ → ℕ → List ℕ
unfolding last_digits reversed
put_digits v digits =
    let tmp = if v == 0 then 48 ∷ [] else last_digits 6 v in
    reversed (tmp ++ replicate (digits - length tmp) 48) []

unfoldable pub ul_to_str : ℕ → List ℕ
unfolding last_digits reversed
ul_to_str v = reversed (if v == 0 then 48 ∷ [] else last_digits 22 v) []
