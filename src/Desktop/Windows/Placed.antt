-- ===== src/Desktop/Windows/Placed.antt =====
-- kernel/desktop.c: the windows stay on the screen (what desktop_gfx_integrity tests, and above the
-- taskbar).
use sol_os.Base.{
  subst, ℕ, ◌<◌, ◌≡◌, sym, inl, inr, true, not, arith, if◌then◌else◌, Bool-cases, if_true, if_false,
}
use sol_os.Base.Int.{ℤ, ◌+ℤ◌, ◌-ℤ◌, ◌≤ℤ◌, ◌<ℤ◌, ltb_ℤ, +ℤ_parts, -ℤ_parts, pos}
use sol_os.Desktop.Windows.Ops.{toggled}
use sol_os.Desktop.Windows.{Window, Desktop, work_h, min_win_w, min_win_h}
use sol_os.Desktop.Windows.Slots.{At}
use sol_os.Desktop.Windows.Pointer.{keep_in, new_size, Pointer, unmaximized, dragged, stretched}

-- `size` pixels from `v` on lie between 0 and the bound, and there is at least one.
abbrev pub Within : ℤ → ℤ → ℤ → Type 0
Within v size bound = (pos 0 ≤ℤ v) × (pos 0 <ℤ size) × (v +ℤ size ≤ℤ bound)

abbrev pub InWork : Desktop → ℤ → ℤ → ℤ → ℤ → Type 0
InWork s x y w h = Within x w (pos s.width) × Within y h (work_h s)

-- The window is above the taskbar, and so is the place that a maximized window goes back to.
abbrev pub Placed : Desktop → Window → Type 0
Placed s w =
    InWork s w.x w.y w.w w.h × (w.maximized ≡ true → InWork s w.rest_x w.rest_y w.rest_w w.rest_h)

unfoldable pub AllPlaced : Desktop → Type 0
AllPlaced s = (i : ℕ) (w : Window) → At s.wins i w → w.used ≡ true → Placed s w

pub not_below :
    (t size bound : ℤ)
    → pos 0 <ℤ size
    → size ≤ℤ bound
    → t +ℤ size ≤ℤ bound
    → Within (if ltb_ℤ t (pos 0) then pos 0 else t) size bound
not_below t size bound h k l = elim (Bool-cases (ltb_ℤ t (pos 0))) [
  | inl e ↦ rw e (omega arith, h, omega (arith, +ℤ_parts (pos 0) size))
  | inr e ↦ rw e (ground arith, h, l)
]

keep_in-Within :
    (v size bound : ℤ) → pos 0 <ℤ size → size ≤ℤ bound → Within (keep_in v size bound) size bound
unfolding keep_in
keep_in-Within v size bound h k = elim (Bool-cases (ltb_ℤ bound (v +ℤ size))) [
  | inl e ↦
      rw (e, keep_in)
        (not_below (bound -ℤ size) size bound h k
          (omega (arith, -ℤ_parts bound size, +ℤ_parts (bound -ℤ size) size)))
  | inr e ↦ rw (e, keep_in) (not_below v size bound h k (ground arith))
]

pub cut_at :
    (size corner bound : ℤ)
    → pos 0 <ℤ size
    → pos 0 ≤ℤ corner
    → corner <ℤ bound
    → Within corner (if ltb_ℤ bound (corner +ℤ size) then bound -ℤ corner else size) bound
cut_at size corner bound h k l = elim (Bool-cases (ltb_ℤ bound (corner +ℤ size))) [
  | inl e ↦ rw e (
    k,
    omega (arith, -ℤ_parts bound corner),
    omega (arith, -ℤ_parts bound corner, +ℤ_parts corner (bound -ℤ corner)),
  )
  | inr e ↦ rw e (k, h, ground arith)
]

new_size-Within :
    (wanted least corner bound : ℤ)
    → pos 0 <ℤ least
    → pos 0 ≤ℤ corner
    → corner <ℤ bound
    → Within corner (new_size wanted least corner bound) bound
unfolding new_size
new_size-Within wanted least corner bound h k l =
    cut_at (if ltb_ℤ wanted least then least else wanted) corner bound (ground arith) k l

-- A span that lies within a bound is no longer than it.
pub Within-size : (v size bound : ℤ) → Within v size bound → size ≤ℤ bound
Within-size v size bound h = omega (arith, h.0, h.2, +ℤ_parts v size)

Within-corner : (v size bound : ℤ) → Within v size bound → v <ℤ bound
Within-corner v size bound h = omega (arith, h.1, h.2, +ℤ_parts v size)

unmaximized-Placed : (s : Desktop) (w : Window) → Placed s w → Placed s (unmaximized w)
unfolding unmaximized
unmaximized-Placed s w h = elim (Bool-cases w.maximized) [
  | inl e ↦ subst (λ v. Placed s v) (sym (if_true _ _ e)) (h.1 e, λ t. absurd (ground arith))
  | inr e ↦ subst (λ v. Placed s v) (sym (if_false _ _ e)) h
]

pub dragged-Placed : (p : Pointer) (w : Window) → Placed p.desk w → Placed p.desk (dragged p w)
unfolding dragged
dragged-Placed p w h =
    let u = unmaximized w in
    let k = unmaximized-Placed p.desk w h in
    (
      (
        keep_in-Within (p.cursor_x -ℤ p.drag_off_x) u.w (pos p.desk.width) k.0.0.1
            (Within-size u.x u.w (pos p.desk.width) k.0.0),
        keep_in-Within (p.cursor_y -ℤ p.drag_off_y) u.h (work_h p.desk) k.0.1.1
            (Within-size u.y u.h (work_h p.desk) k.0.1),
      ),
      k.1,
    )

pub stretched-Placed : (p : Pointer) (w : Window) → Placed p.desk w → Placed p.desk (stretched p w)
unfolding stretched
stretched-Placed p w h = (
  (
    new_size-Within (p.resize_w +ℤ (p.cursor_x -ℤ p.resize_x)) min_win_w w.x (pos p.desk.width)
        (omega arith) h.0.0.0 (Within-corner w.x w.w (pos p.desk.width) h.0.0),
    new_size-Within (p.resize_h +ℤ (p.cursor_y -ℤ p.resize_y)) min_win_h w.y (work_h p.desk)
        (omega arith) h.0.1.0 (Within-corner w.y w.h (work_h p.desk) h.0.1),
  ),
  h.1,
)

pub toggled-Placed :
    (s : Desktop) (w : Window) → 0 < s.width → 48 < s.height → Placed s w → Placed s (toggled s w)
unfolding toggled
toggled-Placed s w bw bh h = elim (Bool-cases w.maximized) [
  | inl e ↦
      subst (λ v. Placed s v) (sym (if_false {b = not w.maximized} _ _ (ground arith)))
        (h.1 e, λ t. absurd (ground arith))
  | inr e ↦
      subst (λ v. Placed s v) (sym (if_true {b = not w.maximized} _ _ (ground arith)))
        (
          (
            (omega arith, omega arith, omega (arith, +ℤ_parts (pos 0) (pos s.width))),
            (
              omega arith,
              omega (arith, -ℤ_parts (pos s.height) (pos 48)),
              omega (arith, +ℤ_parts (pos 0) (work_h s)),
            ),
          ),
          λ t. h.0,
        )
]
