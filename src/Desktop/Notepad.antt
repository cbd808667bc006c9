-- ===== src/Desktop/Notepad.antt =====
-- kernel/desktop.c: the notepad's text and its cursor. A name is a list without its final 0.
pub mod Files
pub mod Edit
pub mod Keys
pub mod Saved
mod Tests
use sol_os.Base.{
  ℕ, zero, suc, ◌+◌, ◌-◌, min, Bool, true, false, ◌&&◌, Option, none, List, [], ltb, leb, ◌==◌,
  if◌then◌else◌,
}
use sol_os.Base.Int.{ℤ, pos_part, ◌+ℤ◌, ◌-ℤ◌, ltb_ℤ, pos}
use sol_os.Libc.{Memory, memmove, store}

-- The `np_` fields of `struct desktop_window`. `own_title`: the window's title is `np_title`.
pub record Notepad : Type 0 where
  pub text : Memory
  pub len : ℕ
  pub cursor : ℕ
  pub fname : List ℕ
  pub title : List ℕ
  pub own_title : Bool
  pub dirty : Bool
  pub file_idx : Option ℕ
  pub save_as : Bool
  pub save_as_buf : List ℕ
  pub save_as_cursor : ℕ

abbrev pub max_text : ℕ
max_text = 8192

unfoldable pub np_init : Notepad → Notepad
np_init n = record n {
  len = 0;
  cursor = 0;
  fname = [];
  title = [];
  dirty = false;
  file_idx = none;
  save_as = false;
  save_as_cursor = 0;
  save_as_buf = [];
  text = store n.text 0 0;
}

-- The line breaks among the `k` characters from `i` on.
unfoldable pub count_breaks : Memory → ℕ → ℕ → ℕ
count_breaks t i zero = 0
count_breaks t i (suc k) = (if t i == 10 then 1 else 0) + count_breaks t (i + 1) k

-- The loop stops at the cursor or at the end of the text, whichever is first.
unfoldable pub np_cursor_row : Notepad → ℕ
unfolding count_breaks
np_cursor_row n = count_breaks n.text 0 (min n.cursor n.len)

-- `for (i = k - 1; i >= 0 && text[i] != '\n'; i--) col++`
unfoldable pub col_from : Memory → ℕ → ℕ
col_from t zero = 0
col_from t (suc k) = let rest = col_from t k in if t k == 10 then 0 else rest + 1

unfoldable pub np_cursor_col : Notepad → ℕ
unfolding col_from
np_cursor_col n = col_from n.text n.cursor

unfoldable pub np_move_cursor : Notepad → ℤ → Notepad
np_move_cursor n delta =
    let place = pos n.cursor +ℤ delta in
    let low = if ltb_ℤ place (pos 0) then pos 0 else place in
    let high = if ltb_ℤ (pos n.len) low then pos n.len else low in
    record n { cursor = pos_part high }

unfoldable pub np_insert_char : Notepad → ℕ → Notepad
unfolding memmove
np_insert_char n c =
    let moved =
      if ltb n.cursor n.len
      then memmove n.text (n.cursor + 1) n.cursor (n.len - n.cursor)
      else n.text in
    if leb (max_text - 1) n.len then n else record n {
      text = store moved n.cursor c;
      len = n.len + 1;
      cursor = n.cursor + 1;
      dirty = true;
    }

-- The number of bytes moved is a `size_t`: the cursor is never behind the text's end.
unfoldable pub np_delete_char : Notepad → Notepad
unfolding memmove
np_delete_char n =
    if ltb 0 n.cursor && ltb 0 n.len
    then record n {
      text = memmove n.text (n.cursor - 1) n.cursor (n.len - n.cursor);
      len = n.len - 1;
      cursor = n.cursor - 1;
      dirty = true;
    }
    else n

-- The key up: the start of the line above. The loop walks from the text's start.
unfoldable pub line_start : Memory → ℕ → ℕ → ℕ → ℕ → ℕ → ℕ
line_start t zero i cur_row row target = target
line_start t (suc k) i cur_row row target =
    if ltb (cur_row + 1) row
    then line_start t k (i + 1) (if t i == 10 then cur_row + 1 else cur_row) row (i + 1)
    else target

unfoldable pub key_up : Notepad → Notepad
unfolding np_cursor_row line_start np_move_cursor
key_up n =
    let row = np_cursor_row n in
    let target = line_start n.text n.cursor 0 0 row 0 in
    if ltb 0 row && ltb target n.cursor then np_move_cursor n (pos target -ℤ pos n.cursor) else n

-- The key down: the loop from the cursor on, over the `k` characters that are left.
unfoldable pub next_line : Notepad → ℕ → ℕ → ℕ → ℕ → ℕ
unfolding np_cursor_row
next_line n zero i row target = target
next_line n (suc k) i row target =
    if n.text i == 10
    then (if row + 1 == np_cursor_row n then target else next_line n k (i + 1) (row + 1) (i + 1))
    else next_line n k (i + 1) row (i + 1)

unfoldable pub key_down : Notepad → Notepad
unfolding next_line np_move_cursor
key_down n =
    let target = next_line n (n.len - n.cursor) n.cursor (np_cursor_row n) n.cursor in
    if ltb n.cursor target then np_move_cursor n (pos target -ℤ pos n.cursor) else n
