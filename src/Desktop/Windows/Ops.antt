-- ===== src/Desktop/Windows/Ops.antt =====
-- kernel/desktop.c: the operations on a window, and the pointer's.
use sol_os.Base.{
  ℕ, ◌+◌, ◌%◌, ◌^◌, true, false, not, Option, none, some, List, [], ◌∷◌, ◌++◌, ◌==◌, if◌then◌else◌,
  get_elem?, set,
}
use sol_os.Base.Int.{ℤ, ◌+ℤ◌, ◌-ℤ◌, ltb_ℤ, pos}
use sol_os.Desktop.Windows.{
  Window, Call, redraw_rect, redraw_union, redraw_all_titles, redraw_taskbar, ns_abort, init_app,
  Desktop, work_h, min_win_w, min_win_h, win_topmost_index, win_is_topmost,
}

abbrev pub call : Desktop → Call → Desktop
call s c = record s { calls = s.calls ++ (c ∷ []) }

abbrev pub next_order : Desktop → ℕ
next_order s = (s.order_counter + 1) % 2 ^ 32

-- `if (g_drag == idx) g_drag = -1`
abbrev pub release : Option ℕ → ℕ → Option ℕ
release none idx = none
release (some i) idx = if i == idx then none else some i

-- The window of an index of the table.
abbrev pub at_window : Desktop → ℕ → (Window → Desktop) → Desktop
at_window s idx f = elim (get_elem? s.wins idx) [ none ↦ s | some w ↦ f w ]

abbrev pub place : Desktop → ℕ → Window → Desktop
place s idx w = record s { wins = set s.wins idx w }

-- The first slot that is not in use.
unfoldable pub free_slot : ℕ → List Window → Option ℕ
free_slot i [] = none
free_slot i (w ∷ ws) = let rest = free_slot (i + 1) ws in if w.used then rest else some i

-- The place of a new window: the corner is moved first, then the size is raised to the least size.
unfoldable pub open_place : Desktop → ℤ → ℤ → ℤ → ℤ → ℤ × ℤ × ℤ × ℤ
open_place s x y w h =
    let x1 = if ltb_ℤ x (pos 0) then pos 0 else x in
    let y1 = if ltb_ℤ y (pos 0) then pos 0 else y in
    (
      if ltb_ℤ (pos s.width) (x1 +ℤ w) then pos s.width -ℤ w else x1,
      if ltb_ℤ (work_h s) (y1 +ℤ h) then work_h s -ℤ h else y1,
      if ltb_ℤ w min_win_w then min_win_w else w,
      if ltb_ℤ h min_win_h then min_win_h else h,
    )

-- The window that win_open leaves in its slot.
abbrev pub opened : Desktop → Window → ℤ × ℤ × ℤ × ℤ → ℕ → Window
opened s n p kind = record n {
  used = true;
  x = p.0;
  y = p.1;
  w = p.2;
  h = p.3;
  kind = kind;
  order = next_order s;
  minimized = false;
  maximized = false;
}

unfoldable pub open_at : Desktop → ℕ → ℤ × ℤ × ℤ × ℤ → ℕ → Window → Desktop
open_at s i p kind n = record s {
  wins = set s.wins i (opened s n p kind);
  order_counter = next_order s;
  calls = s.calls ++ (init_app i kind ∷ redraw_all_titles ∷ []);
}

-- The new window's place in the table; `none` is -1, when every slot is in use.
unfoldable pub win_open : Desktop → ℤ → ℤ → ℤ → ℤ → ℕ → Desktop × Option ℕ
unfolding open_place free_slot open_at
win_open s x y w h kind = elim (free_slot 0 s.wins) [
  | none ↦ (s, none)
  | some i ↦ (at_window s i (open_at s i (open_place s x y w h) kind), some i)
]

-- With no window shown the code would read before the table; the callers raise a shown window.
unfoldable pub raise_union : Desktop → Option ℕ → Window → List Call
raise_union s none w = []
raise_union s (some prev) w = elim (get_elem? s.wins prev) [
  | none ↦ []
  | some p ↦ redraw_union w.x w.y w.w w.h p.x p.y p.w p.h ∷ []
]

-- What win_raise does to a window that is not topmost.
unfoldable pub raised : Desktop → ℕ → Window → Desktop
unfolding win_topmost_index raise_union
raised s idx w = record s {
  wins = set s.wins idx (record w { order = next_order s });
  order_counter = next_order s;
  calls =
      s.calls ++ raise_union s (win_topmost_index s) w ++ (redraw_all_titles ∷ redraw_taskbar ∷ []);
}

unfoldable pub win_raise : Desktop → ℕ → Desktop
unfolding win_is_topmost raised
win_raise s idx =
    at_window s idx
      λ w. if not w.used then s else if win_is_topmost s idx then s else raised s idx w

-- What win_close does to a window.
unfoldable pub closed : Desktop → ℕ → Window → Desktop
closed s idx w = record s {
  wins = set s.wins idx (record w { used = false });
  drag = release s.drag idx;
  resize = release s.resize idx;
  calls =
      s.calls
      ++ (ns_abort idx ∷ redraw_rect w.x w.y w.w w.h ∷ redraw_all_titles ∷ redraw_taskbar ∷ []);
}

unfoldable pub win_close : Desktop → ℕ → Desktop
unfolding closed
win_close s idx = at_window s idx λ w. if not w.used then s else closed s idx w

-- What win_minimize does to a window.
unfoldable pub put_away : Desktop → ℕ → Window → Desktop
put_away s idx w = record s {
  wins = set s.wins idx (record w { minimized = true });
  drag = release s.drag idx;
  resize = release s.resize idx;
  calls = s.calls ++ (redraw_rect w.x w.y w.w w.h ∷ redraw_all_titles ∷ redraw_taskbar ∷ []);
}

unfoldable pub win_minimize : Desktop → ℕ → Desktop
unfolding put_away
win_minimize s idx =
    at_window s idx λ w. if not w.used then s else if w.minimized then s else put_away s idx w

-- What win_restore_from_taskbar does to a window.
unfoldable pub restored : Desktop → ℕ → Window → Desktop
restored s idx w = record s {
  wins = set s.wins idx (record w { minimized = false; order = next_order s });
  order_counter = next_order s;
  calls = s.calls ++ (redraw_rect w.x w.y w.w w.h ∷ redraw_all_titles ∷ redraw_taskbar ∷ []);
}

unfoldable pub win_restore_from_taskbar : Desktop → ℕ → Desktop
unfolding restored
win_restore_from_taskbar s idx = at_window s idx λ w. if not w.used then s else restored s idx w

-- The window that win_toggle_max leaves.
unfoldable pub toggled : Desktop → Window → Window
toggled s w =
    if not w.maximized
    then record w {
      rest_x = w.x;
      rest_y = w.y;
      rest_w = w.w;
      rest_h = w.h;
      x = pos 0;
      y = pos 0;
      w = pos s.width;
      h = work_h s;
      maximized = true;
    }
    else record w { x = w.rest_x; y = w.rest_y; w = w.rest_w; h = w.rest_h; maximized = false }

-- What win_toggle_max does to a window.
unfoldable pub resized : Desktop → ℕ → Window → Desktop
unfolding toggled
resized s idx w = record s {
  wins = set s.wins idx (toggled s w);
  calls =
      s.calls
      ++ (redraw_union w.x w.y w.w w.h (toggled s w).x (toggled s w).y (toggled s w).w
            (toggled s w).h
          ∷ redraw_taskbar
          ∷ []);
}

unfoldable pub win_toggle_max : Desktop → ℕ → Desktop
unfolding resized
win_toggle_max s idx = at_window s idx λ w. if not w.used then s else resized s idx w
