-- ===== src/Desktop/Windows.antt =====
-- kernel/desktop.c: the table of windows. Its eight slots are a list, and what a window's
-- application keeps is modelled elsewhere. The calls that draw or that stop a transfer are recorded
-- in order.
pub mod Ops
pub mod Topmost
pub mod Slots
pub mod Invariant
pub mod Raise
pub mod Pointer
pub mod Placed
pub mod Desk
pub mod Open
mod Tests
use sol_os.Base.{
  ℕ, ◌+◌, Bool, false, ◌&&◌, ◌||◌, not, Option, none, some, List, [], ◌∷◌, ltb, ◌==◌, if◌then◌else◌,
}
use sol_os.Base.Int.{ℤ, ◌+ℤ◌, ◌-ℤ◌, ltb_ℤ, leb_ℤ, pos}

-- The fields of `struct desktop_window` for its place; `order` is a `uint32_t`.
pub record Window : Type 0 where
  pub used : Bool
  pub x : ℤ
  pub y : ℤ
  pub w : ℤ
  pub h : ℤ
  pub order : ℕ
  pub minimized : Bool
  pub maximized : Bool
  pub rest_x : ℤ
  pub rest_y : ℤ
  pub rest_w : ℤ
  pub rest_h : ℤ
  pub kind : ℕ

-- The calls that leave this part of the code.
pub data Call : Type 0 where
  redraw_rect : ℤ → ℤ → ℤ → ℤ → Call
  redraw_union : ℤ → ℤ → ℤ → ℤ → ℤ → ℤ → ℤ → ℤ → Call
  redraw_all_titles : Call
  redraw_taskbar : Call
  ns_abort : ℕ → Call
  init_app : ℕ → ℕ → Call

-- `g_w`, `g_h`, `g_wins`, `g_order_counter`, `g_drag`, `g_resize` (`none` is -1), and the calls so far.
pub record Desktop : Type 0 where
  pub width : ℕ
  pub height : ℕ
  pub wins : List Window
  pub order_counter : ℕ
  pub drag : Option ℕ
  pub resize : Option ℕ
  pub calls : List Call

abbrev pub taskbar_h : ℕ
taskbar_h = 48

-- `work_h`
abbrev pub work_h : Desktop → ℤ
work_h s = pos s.height -ℤ pos taskbar_h

abbrev pub min_win_w : ℤ
min_win_w = pos 200

abbrev pub min_win_h : ℤ
min_win_h = pos 120

abbrev pub title_h : ℤ
title_h = pos 26

-- A window that is drawn.
abbrev pub shown : Window → Bool
shown w = w.used && not w.minimized

-- The better of a candidate and the window at `i`: the loops take a later window only if its order
-- is greater.
unfoldable pub prefer : Option (ℕ × ℕ) → ℕ → ℕ → Option (ℕ × ℕ)
prefer none i order = some (i, order)
prefer (some (j, best)) i order = if ltb best order then some (i, order) else some (j, best)

-- The loop of the functions below: of the windows that pass the test the one of the greatest order,
-- with its order.
unfoldable pub top_from : (Window → Bool) → Option (ℕ × ℕ) → ℕ → List Window → Option (ℕ × ℕ)
unfolding prefer
top_from test best i [] = best
top_from test best i (w ∷ ws) =
    top_from test (if test w then prefer best i w.order else best) (i + 1) ws

abbrev pub index_of : Option (ℕ × ℕ) → Option ℕ
index_of none = none
index_of (some (i, order)) = some i

unfoldable pub win_topmost_index : Desktop → Option ℕ
unfolding top_from
win_topmost_index s = index_of (top_from shown none 0 s.wins)

-- `idx` is an index, not -1.
unfoldable pub win_is_topmost : Desktop → ℕ → Bool
unfolding top_from
win_is_topmost s idx = elim (index_of (top_from shown none 0 s.wins)) [
  | none ↦ false
  | some i ↦ i == idx
]

unfoldable pub count_used : List Window → ℕ
count_used [] = 0
count_used (w ∷ ws) = (if w.used then 1 else 0) + count_used ws

unfoldable pub win_count : Desktop → ℕ
unfolding count_used
win_count s = count_used s.wins

unfoldable pub win_contains : Window → ℤ → ℤ → Bool
win_contains w px py =
    leb_ℤ w.x px && leb_ℤ w.y py && ltb_ℤ px (w.x +ℤ w.w) && ltb_ℤ py (w.y +ℤ w.h)

unfoldable pub win_topmost_at : Desktop → ℤ → ℤ → Option ℕ
unfolding top_from win_contains
win_topmost_at s px py = index_of (top_from (λ w. shown w && win_contains w px py) none 0 s.wins)

unfoldable pub win_rect_intersects : Window → ℤ → ℤ → ℤ → ℤ → Bool
win_rect_intersects win x y w h =
    ltb_ℤ win.x (x +ℤ w)
    && ltb_ℤ x (win.x +ℤ win.w)
    && ltb_ℤ win.y (y +ℤ h)
    && ltb_ℤ y (win.y +ℤ win.h)

-- The buttons of a title bar; `none` is 0.
pub data Button : Type 0 where
  close_button : Button
  max_button : Button
  min_button : Button

unfoldable pub win_button_at : Window → ℤ → ℤ → Option Button
unfolding win_contains
win_button_at w px py =
    let by = w.y +ℤ pos 3 in
    let c0 = w.x +ℤ w.w -ℤ pos 4 -ℤ pos 22 in
    let m0 = c0 -ℤ pos 22 -ℤ pos 2 in
    let n0 = m0 -ℤ pos 22 -ℤ pos 2 in
    if not (win_contains w px py)
    then none
    else if ltb_ℤ py w.y || leb_ℤ (w.y +ℤ title_h) py
    then none
    else if ltb_ℤ py by || leb_ℤ (by +ℤ pos 20) py
    then none
    else if leb_ℤ c0 px
    then some close_button
    else if leb_ℤ m0 px
    then some max_button
    else if leb_ℤ n0 px
    then some min_button
    else none
