-- ===== src/Desktop/Windows/Tests.antt =====
-- kernel/desktop.c: a screen of 800 by 600 with one window.
use sol_os.Base.{
  subst, ℕ, zero, suc, ◌≤◌, ◌≡◌, refl, sym, ◌∙◌, ◌↔◌, true, false, ◌&&◌, none, some, List, [], ◌∷◌,
  arith, All,
}
use sol_os.Base.Int.{◌+ℤ◌, ◌-ℤ◌, ◌≤ℤ◌, pos, negsuc}
use sol_os.Desktop.Windows.{
  Window, Desktop, work_h, shown, win_topmost_index, win_contains, win_topmost_at,
}
use sol_os.Desktop.Windows.Ops.{
  open_place, win_open, win_raise, win_restore_from_taskbar, win_toggle_max,
}
use sol_os.Desktop.Windows.Slots.{At}
use sol_os.Desktop.Windows.Topmost.{Found, win_topmost_at_lem}
use sol_os.Desktop.Windows.Raise.{All-At, in_front, win_raise_lem}
use sol_os.Desktop.Windows.Pointer.{Pointer, drag_window, resize_window}
use sol_os.Desktop.Windows.Desk.{pointer-AllPlaced}
use sol_os.Desktop.Windows.Placed.{InWork, Placed, AllPlaced}
use sol_os.Desktop.Windows.Open.{Opened, win_open_lem, open_place_lem}
use sol_os.Desktop.Windows.Invariant.{act, WellFormed, act-WellFormed, minimize}

abbrev free_window : Window
free_window = record {
  used = false;
  x = pos 0;
  y = pos 0;
  w = pos 0;
  h = pos 0;
  order = 0;
  minimized = false;
  maximized = false;
  rest_x = pos 0;
  rest_y = pos 0;
  rest_w = pos 0;
  rest_h = pos 0;
  kind = 0;
}

abbrev about_window : Window
about_window = record free_window {
  used = true;
  x = pos 120;
  y = pos 90;
  w = pos 460;
  h = pos 240;
  order = 1;
}

abbrev free_slots : List Window
free_slots =
    free_window ∷ free_window ∷ free_window ∷ free_window ∷ free_window ∷ free_window ∷ free_window
    ∷ []

-- The window is being dragged.
abbrev desk : Desktop
desk = record {
  width = 800;
  height = 600;
  wins = about_window ∷ free_slots;
  order_counter = 1;
  drag = some 0;
  resize = none;
  calls = [];
}

free_slots-unused : All (λ w. w.used ≡ false) free_slots
free_slots-unused = (refl, (refl, (refl, (refl, (refl, (refl, (refl, tt)))))))

only_first :
    (P : Window → Type 0) (i : ℕ) (w : Window)
    → P about_window
    → At desk.wins i w
    → w.used ≡ true
    → P w
only_first P zero w p at u = subst P (in_front about_window w at) p
only_first P (suc i) w p at u =
    absurd (ground (arith, All-At (λ v. v.used ≡ false) free_slots i w free_slots-unused at))

first_place : (i : ℕ) (w : Window) → At desk.wins i w → w.used ≡ true → i ≡ 0
first_place zero w at u = refl
first_place (suc i) w at u =
    absurd (ground (arith, All-At (λ v. v.used ≡ false) free_slots i w free_slots-unused at))

desk-WellFormed : WellFormed desk
unfolding WellFormed
desk-WellFormed = (
  refl,
  λ i w at u. only_first (λ v. v.order ≤ 1) i w (omega arith) at u,
  λ i j v w at at' u u' e. first_place i v at u ∙ sym (first_place j w at' u'),
  (about_window, refl, refl),
  tt,
)

act-WellFormed_example : WellFormed (act desk (minimize 0))
act-WellFormed_example = act-WellFormed desk (minimize 0) (omega arith) desk-WellFormed

win_topmost_at_lem_example :
    Found
      (λ w. shown w && win_contains w (pos 130) (pos 95))
      desk.wins
      (win_topmost_at desk (pos 130) (pos 95))
win_topmost_at_lem_example = win_topmost_at_lem desk (pos 130) (pos 95)

win_raise_lem_example :
    (shown about_window ≡ true → win_topmost_index (win_raise desk 0) ≡ some 0)
    × (win_topmost_index (win_restore_from_taskbar desk 0) ≡ some 0)
win_raise_lem_example = win_raise_lem desk 0 about_window (omega arith) desk-WellFormed refl refl

win_open_lem_example :
    Opened desk
      (open_place desk (pos 300) (pos 90) (pos 460) (pos 220))
      1
      (win_open desk (pos 300) (pos 90) (pos 460) (pos 220) 1)
win_open_lem_example =
    win_open_lem desk (pos 300) (pos 90) (pos 460) (pos 220) 1 (omega arith) desk-WellFormed

-- A window of 900 by 220 is wider than the screen.
open_place_lem_example :
    InWork desk
      (open_place desk (pos 300) (pos 90) (pos 900) (pos 220)).0
      (open_place desk (pos 300) (pos 90) (pos 900) (pos 220)).1
      (open_place desk (pos 300) (pos 90) (pos 900) (pos 220)).2
      (open_place desk (pos 300) (pos 90) (pos 900) (pos 220)).3
    ↔ ((pos 900 ≤ℤ pos 800) × (pos 220 ≤ℤ work_h desk))
open_place_lem_example =
    open_place_lem desk (pos 300) (pos 90) (pos 900) (pos 220) (omega arith) (omega arith)

abbrev pointer : Pointer
pointer = record {
  desk = desk;
  cursor_x = pos 5;
  cursor_y = pos 590;
  drag_off_x = pos 10;
  drag_off_y = pos 10;
  resize_x = pos 0;
  resize_y = pos 0;
  resize_w = pos 0;
  resize_h = pos 0;
}

desk-AllPlaced : AllPlaced desk
unfolding AllPlaced ◌+ℤ◌ ◌-ℤ◌
desk-AllPlaced i w at u =
    only_first (Placed desk) i w
      (
        ((omega arith, omega arith, omega arith), (omega arith, omega arith, omega arith)),
        λ e. absurd (ground arith),
      )
      at u

pointer-AllPlaced_example :
    AllPlaced (drag_window pointer (negsuc 4) (pos 3)).desk
    × AllPlaced (resize_window pointer).desk
    × AllPlaced (win_toggle_max desk 0)
pointer-AllPlaced_example =
    pointer-AllPlaced pointer (negsuc 4) (pos 3) 0 (omega arith) (omega arith) desk-AllPlaced
