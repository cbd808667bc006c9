-- ===== src/Desktop/Windows/Pointer.antt =====
-- kernel/desktop.c: the pointer moves, drags and resizes windows, and presses on a window
-- (desktop_poll and the end of handle_left_press).
use sol_os.Base.{ℕ, Bool, false, ◌&&◌, ◌||◌, not, none, some, [], ◌∷◌, ◌++◌, if◌then◌else◌, set}
use sol_os.Base.Int.{ℤ, ◌+ℤ◌, ◌-ℤ◌, ltb_ℤ, leb_ℤ, pos}
use sol_os.Desktop.Windows.{
  Window, redraw_rect, redraw_union, Desktop, work_h, min_win_w, min_win_h, title_h, close_button,
  max_button, min_button, win_button_at,
}
use sol_os.Desktop.Windows.Ops.{at_window, win_raise, win_close, win_minimize, win_toggle_max}

-- The windows, and `g_cursor_x` and the other variables of the pointer.
pub record Pointer : Type 0 where
  pub desk : Desktop
  pub cursor_x : ℤ
  pub cursor_y : ℤ
  pub drag_off_x : ℤ
  pub drag_off_y : ℤ
  pub resize_x : ℤ
  pub resize_y : ℤ
  pub resize_w : ℤ
  pub resize_h : ℤ

-- One coordinate of the cursor, kept between 0 and the last place where the cursor is whole.
unfoldable pub clamp : ℤ → ℤ → ℤ
clamp v last =
    let low = if ltb_ℤ v (pos 0) then pos 0 else v in if ltb_ℤ last low then last else low

-- The cursor is 12 by 20.
unfoldable pub move_cursor : Pointer → ℤ → ℤ → Pointer
unfolding clamp
move_cursor p dx dy = record p {
  cursor_x = clamp (p.cursor_x +ℤ dx) (pos p.desk.width -ℤ pos 12);
  cursor_y = clamp (p.cursor_y +ℤ dy) (pos p.desk.height -ℤ pos 20);
}

-- A maximized window takes its former place back when it is dragged.
unfoldable pub unmaximized : Window → Window
unmaximized w =
    if w.maximized
    then record w { x = w.rest_x; y = w.rest_y; w = w.rest_w; h = w.rest_h; maximized = false }
    else w

-- A coordinate of a dragged window: first the far edge is kept in, then the near one.
unfoldable pub keep_in : ℤ → ℤ → ℤ → ℤ
keep_in v size bound =
    let near = if ltb_ℤ bound (v +ℤ size) then bound -ℤ size else v in
    if ltb_ℤ near (pos 0) then pos 0 else near

unfoldable pub dragged : Pointer → Window → Window
unfolding unmaximized keep_in
dragged p w =
    let u = unmaximized w in
    record u {
      x = keep_in (p.cursor_x -ℤ p.drag_off_x) u.w (pos p.desk.width);
      y = keep_in (p.cursor_y -ℤ p.drag_off_y) u.h (work_h p.desk);
    }

abbrev pub is_zero : ℤ → Bool
is_zero v = leb_ℤ v (pos 0) && leb_ℤ (pos 0) v

abbrev pub same_ℤ : ℤ → ℤ → Bool
same_ℤ a b = leb_ℤ a b && leb_ℤ b a

-- `scene_region` and `damage_add` of the whole screen are one redraw.
unfoldable pub drag_at : Pointer → ℕ → Window → Desktop
unfolding dragged
drag_at p i w = record p.desk {
  wins = set p.desk.wins i (dragged p w);
  calls = p.desk.calls ++ (redraw_rect (pos 0) (pos 0) (pos p.desk.width) (pos p.desk.height) ∷ []);
}

unfoldable pub drag_window : Pointer → ℤ → ℤ → Pointer
unfolding drag_at
drag_window p dx dy = elim p.desk.drag [
  | none ↦ p
  | some i ↦ record p {
    desk =
        at_window p.desk i
          λ w. if not w.used || (is_zero dx && is_zero dy) then p.desk else drag_at p i w;
  }
]

-- A size of a resized window: at least the least size, then within the bound.
unfoldable pub new_size : ℤ → ℤ → ℤ → ℤ → ℤ
new_size wanted least corner bound =
    let size = if ltb_ℤ wanted least then least else wanted in
    if ltb_ℤ bound (corner +ℤ size) then bound -ℤ corner else size

unfoldable pub stretched : Pointer → Window → Window
unfolding new_size
stretched p w = record w {
  w = new_size (p.resize_w +ℤ (p.cursor_x -ℤ p.resize_x)) min_win_w w.x (pos p.desk.width);
  h = new_size (p.resize_h +ℤ (p.cursor_y -ℤ p.resize_y)) min_win_h w.y (work_h p.desk);
}

unfoldable pub resize_at : Pointer → ℕ → Window → Desktop
unfolding stretched
resize_at p i w =
    let v = stretched p w in
    if w.maximized
    then record p.desk { resize = none }
    else if not (same_ℤ v.w w.w) || not (same_ℤ v.h w.h)
    then record p.desk {
      wins = set p.desk.wins i v;
      calls = p.desk.calls ++ (redraw_union w.x w.y w.w w.h v.x v.y v.w v.h ∷ []);
    }
    else p.desk

unfoldable pub resize_window : Pointer → Pointer
unfolding resize_at
resize_window p = elim p.desk.resize [
  | none ↦ p
  | some i ↦ record p {
    desk = at_window p.desk i λ w. if not w.used then p.desk else resize_at p i w;
  }
]

-- The release of the left button.
abbrev pub release_button : Pointer → Pointer
release_button p = record p { desk = record p.desk { drag = none; resize = none } }

-- The point is on the grip in the corner of a window that is not maximized.
abbrev pub on_grip : Window → ℤ → ℤ → Bool
on_grip w px py =
    not w.maximized
    && leb_ℤ (w.x +ℤ w.w -ℤ pos 18) px
    && ltb_ℤ px (w.x +ℤ w.w)
    && leb_ℤ (w.y +ℤ w.h -ℤ pos 18) py
    && ltb_ℤ py (w.y +ℤ w.h)

-- A press on the window `w` at place `i`, behind the buttons of its title bar.
unfoldable pub grab : Pointer → ℕ → Window → ℤ → ℤ → Pointer
unfolding win_raise
grab p i w px py =
    let d = win_raise p.desk i in
    if on_grip w px py
    then record p {
      desk = record d { resize = some i };
      drag_off_x = px -ℤ w.x;
      drag_off_y = py -ℤ w.y;
      resize_x = px;
      resize_y = py;
      resize_w = w.w;
      resize_h = w.h;
    }
    else if ltb_ℤ py (w.y +ℤ title_h)
    then record p {
      desk = record d { drag = some i };
      drag_off_x = px -ℤ w.x;
      drag_off_y = py -ℤ w.y;
    }
    else record p { desk = d }

unfoldable pub press_window : Pointer → ℕ → Window → ℤ → ℤ → Pointer
unfolding win_button_at win_close win_toggle_max win_minimize grab
press_window p i w px py = elim (win_button_at w px py) [
  | some close_button ↦ record p { desk = win_close p.desk i }
  | some max_button ↦ record p { desk = win_toggle_max p.desk i }
  | some min_button ↦ record p { desk = win_minimize p.desk i }
  | none ↦ grab p i w px py
]
