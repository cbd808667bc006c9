-- ===== src/Desktop/Windows/Desk.antt =====
-- kernel/desktop.c: whatever the pointer and the windows' buttons do, no window leaves the screen.
use sol_os.Base.{
  subst, ℕ, ◌<◌, ◌≡◌, refl, sym, inl, inr, Bool, true, false, ◌&&◌, ◌||◌, not, Option, none, some,
  [], ◌∷◌, ◌++◌, arith, if◌then◌else◌, Bool-cases, if_true, if_false, get_elem?, set,
}
use sol_os.Base.Int.{ℤ}
use sol_os.Desktop.Windows.{Window, redraw_union, Desktop}
use sol_os.Desktop.Windows.Ops.{at_window, toggled, resized, win_toggle_max}
use sol_os.Desktop.Windows.Slots.{At, set_cases}
use sol_os.Desktop.Windows.Pointer.{
  Pointer, dragged, is_zero, same_ℤ, drag_at, drag_window, stretched, resize_at, resize_window,
}
use sol_os.Desktop.Windows.Placed.{
  Placed, AllPlaced, dragged-Placed, stretched-Placed, toggled-Placed,
}

same_size :
    (s t : Desktop) (w : Window) → t.width ≡ s.width → t.height ≡ s.height → Placed s w → Placed t w
same_size s t w ew eh h = rw (ew, eh) h

-- A window of the table changes, on a screen of the same size.
set-AllPlaced :
    (s t : Desktop) (i : ℕ) (v : Window)
    → t.wins ≡ set s.wins i v
    → t.width ≡ s.width
    → t.height ≡ s.height
    → (v.used ≡ true → Placed s v)
    → AllPlaced s
    → AllPlaced t
unfolding AllPlaced
set-AllPlaced s t i v e ew eh h all j w at u =
    same_size s t w ew eh (elim (set_cases s.wins i v j w (subst (λ ws. At ws j w) e at)) [
      | inl k ↦ subst (λ o. Placed s o) (sym k.1) (h (subst (λ o. o.used ≡ true) k.1 u))
      | inr k ↦ all j w k.1 u
    ])

slot-AllPlaced :
    (s : Desktop) (i : ℕ) (f : Window → Desktop) (o : Option Window)
    → get_elem? s.wins i ≡ o
    → AllPlaced s
    → ((n : Window) → At s.wins i n → AllPlaced (f n))
    → AllPlaced (elim o [ none ↦ s | some w ↦ f w ])
slot-AllPlaced s i f none e h k = h
slot-AllPlaced s i f (some n) e h k = k n e

unless-AllPlaced :
    (b : Bool) (s t : Desktop)
    → AllPlaced s
    → (b ≡ false → AllPlaced t)
    → AllPlaced (if b then s else t)
unless-AllPlaced true s t h k = h
unless-AllPlaced false s t h k = k refl

window-Placed :
    (s : Desktop) (i : ℕ) (n : Window) → AllPlaced s → At s.wins i n → n.used ≡ true → Placed s n
unfolding AllPlaced
window-Placed s i n all at u = all i n at u

drag_at-AllPlaced :
    (p : Pointer) (i : ℕ) (n : Window)
    → At p.desk.wins i n
    → n.used ≡ true
    → AllPlaced p.desk
    → AllPlaced (drag_at p i n)
unfolding drag_at
drag_at-AllPlaced p i n at u all =
    set-AllPlaced p.desk (drag_at p i n) i (dragged p n) refl refl refl
      (λ t. dragged-Placed p n (window-Placed p.desk i n all at u)) all

-- The same desktop but for the pointer's hold.
hold-AllPlaced : (s : Desktop) (g : Option ℕ) → AllPlaced s → AllPlaced (record s { resize = g })
unfolding AllPlaced
hold-AllPlaced s g all = all

resize_at-AllPlaced :
    (p : Pointer) (i : ℕ) (n : Window)
    → At p.desk.wins i n
    → n.used ≡ true
    → AllPlaced p.desk
    → AllPlaced (resize_at p i n)
unfolding resize_at
resize_at-AllPlaced p i n at u all =
    let v = stretched p n in
    let t = record p.desk {
      wins = set p.desk.wins i v;
      calls = p.desk.calls ++ (redraw_union n.x n.y n.w n.h v.x v.y v.w v.h ∷ []);
    } in
    elim (Bool-cases n.maximized) [
      | inl e ↦ subst AllPlaced (sym (if_true _ _ e)) (hold-AllPlaced p.desk none all)
      | inr e ↦
          subst AllPlaced (sym (if_false _ _ e))
            (elim (Bool-cases (not (same_ℤ v.w n.w) || not (same_ℤ v.h n.h))) [
              | inl f ↦ subst AllPlaced (sym (if_true _ _ f)) (
                  set-AllPlaced p.desk t i v refl refl refl
                    (λ k. stretched-Placed p n (window-Placed p.desk i n all at u)) all)
              | inr f ↦ subst AllPlaced (sym (if_false _ _ f)) all
            ])
    ]

resized-AllPlaced :
    (s : Desktop) (i : ℕ) (n : Window)
    → 0 < s.width
    → 48 < s.height
    → At s.wins i n
    → n.used ≡ true
    → AllPlaced s
    → AllPlaced (resized s i n)
unfolding resized
resized-AllPlaced s i n bw bh at u all =
    set-AllPlaced s (resized s i n) i (toggled s n) refl refl refl
      (λ t. toggled-Placed s n bw bh (window-Placed s i n all at u)) all

-- The window that the pointer drags.
drag_held :
    (p : Pointer) (dx dy : ℤ) (g : Option ℕ)
    → AllPlaced p.desk
    → AllPlaced
        (elim g as (λ x. Pointer) [
          | none ↦ p
          | some i ↦ record p {
            desk =
                at_window p.desk i
                  λ w. if not w.used || (is_zero dx && is_zero dy) then p.desk else drag_at p i w;
          }
        ]).desk
drag_held p dx dy none all = all
drag_held p dx dy (some i) all =
    slot-AllPlaced p.desk i _ (get_elem? p.desk.wins i) refl all λ n at.
      unless-AllPlaced (not n.used || (is_zero dx && is_zero dy)) p.desk (drag_at p i n) all
        λ e. drag_at-AllPlaced p i n at (ground arith) all

-- The window that the pointer resizes.
resize_held :
    (p : Pointer) (g : Option ℕ)
    → AllPlaced p.desk
    → AllPlaced
        (elim g as (λ x. Pointer) [
          | none ↦ p
          | some i ↦ record p {
            desk = at_window p.desk i λ w. if not w.used then p.desk else resize_at p i w;
          }
        ]).desk
resize_held p none all = all
resize_held p (some i) all = slot-AllPlaced p.desk i _ (get_elem? p.desk.wins i) refl all λ n at.
    unless-AllPlaced (not n.used) p.desk (resize_at p i n) all
      λ e. resize_at-AllPlaced p i n at (ground arith) all

-- On a screen with room above the taskbar, if every window in use lies above the taskbar, it still
-- does after a drag, after a resize and after win_toggle_max, wherever the cursor is, and so does
-- the place that a maximized window goes back to.
pub pointer-AllPlaced :
    (p : Pointer) (dx dy : ℤ) (i : ℕ)
    → 0 < p.desk.width
    → 48 < p.desk.height
    → AllPlaced p.desk
    → AllPlaced (drag_window p dx dy).desk
      × AllPlaced (resize_window p).desk
      × AllPlaced (win_toggle_max p.desk i)
unfolding drag_window resize_window win_toggle_max
pointer-AllPlaced p dx dy i bw bh all = (
  drag_held p dx dy p.desk.drag all,
  resize_held p p.desk.resize all,
  slot-AllPlaced p.desk i _ (get_elem? p.desk.wins i) refl all λ n at.
      unless-AllPlaced (not n.used) p.desk (resized p.desk i n) all
        λ e. resized-AllPlaced p.desk i n bw bh at (ground arith) all,
)
