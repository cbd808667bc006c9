-- ===== src/Desktop/Windows/Open.antt =====
-- kernel/desktop.c: win_open, and win_toggle_max used twice.
use sol_os.Base.{
  ap₂, subst, ℕ, zero, suc, ◌+◌, ◌^◌, ◌<◌, ◌≡◌, refl, sym, ap, ◌∙◌, ◌↔◌, inl, inr, true, false, not,
  Option, none, some, List, [], ◌∷◌, arith, if◌then◌else◌, Bool-cases, if_true, if_false, get_elem?,
  set, get_elem?-set_self, All,
}
use sol_os.Base.Int.{ℤ, ◌+ℤ◌, ◌-ℤ◌, ◌≤ℤ◌, ◌<ℤ◌, ltb_ℤ, +ℤ_parts, -ℤ_parts, pos}
use sol_os.Desktop.Windows.{Window, Desktop, work_h, min_win_w, min_win_h, win_topmost_index}
use sol_os.Desktop.Windows.Ops.{
  free_slot, open_place, opened, open_at, win_open, at_window, toggled, win_toggle_max, resized,
}
use sol_os.Desktop.Windows.Slots.{At, At-range}
use sol_os.Desktop.Windows.Invariant.{WellFormed}
use sol_os.Desktop.Windows.Raise.{newest_top, counter_up, at_window_lem}
use sol_os.Desktop.Windows.Placed.{InWork, Within, Within-size}

-- The first slot that is free, counted from `k`; the slots in front of it are in use.
abbrev FreeSlot : ℕ → List Window → Option ℕ → Type 0
FreeSlot k ws none = All (λ w. w.used ≡ true) ws
FreeSlot k ws (some j) = (i : ℕ) × (j ≡ k + i) × ((n : Window) × At ws i n × (n.used ≡ false))

free_later :
    (k : ℕ) (w : Window) (ws : List Window) (o : Option ℕ)
    → w.used ≡ true
    → FreeSlot (k + 1) ws o
    → FreeSlot k (w ∷ ws) o
free_later k w ws none u f = (u, f)
free_later k w ws (some j) u f = (suc f.0, omega (arith, f.1), f.2)

free_slot_lem : (k : ℕ) (ws : List Window) → FreeSlot k ws (free_slot k ws)
unfolding free_slot
free_slot_lem k [] = tt
free_slot_lem k (w ∷ ws) = elim (Bool-cases w.used) [
  | inl e ↦
      subst (λ o. FreeSlot k (w ∷ ws) o) (sym (if_true _ _ e))
        (free_later k w ws _ e (free_slot_lem (k + 1) ws))
  | inr e ↦
      subst (λ o. FreeSlot k (w ∷ ws) o) (sym (if_false _ _ e)) (zero, omega arith, (w, refl, e))
]

-- What win_open does: it takes a free slot for the topmost window, at the place of open_place, and
-- no other slot changes; it fails only when every slot is in use, and then nothing changes.
abbrev pub Opened : Desktop → ℤ × ℤ × ℤ × ℤ → ℕ → Desktop × Option ℕ → Type 0
Opened s p kind (t, none) = (t ≡ s) × All (λ w. w.used ≡ true) s.wins
Opened s p kind (t, some i) =
    ((n : Window) × At s.wins i n × (n.used ≡ false) × (t.wins ≡ set s.wins i (opened s n p kind)))
    × (win_topmost_index t ≡ some i)

open_at_top :
    (s : Desktop) (i : ℕ) (p : ℤ × ℤ × ℤ × ℤ) (kind : ℕ) (n : Window)
    → s.order_counter + 1 < 2 ^ 32
    → WellFormed s
    → At s.wins i n
    → win_topmost_index (open_at s i p kind n) ≡ some i
unfolding open_at
open_at_top s i p kind n c wf at =
    newest_top s (open_at s i p kind n) i n (opened s n p kind) at wf refl refl (counter_up s c)

open_at_wins :
    (s : Desktop) (i : ℕ) (p : ℤ × ℤ × ℤ × ℤ) (kind : ℕ) (n : Window)
    → (open_at s i p kind n).wins ≡ set s.wins i (opened s n p kind)
unfolding open_at
open_at_wins s i p kind n = refl

into_free :
    (s : Desktop) (p : ℤ × ℤ × ℤ × ℤ) (kind : ℕ) (o : Option ℕ)
    → s.order_counter + 1 < 2 ^ 32
    → WellFormed s
    → FreeSlot 0 s.wins o
    → Opened s p kind (elim o as (λ x. Desktop × Option ℕ) [
      | none ↦ (s, none)
      | some i ↦ (at_window s i (open_at s i p kind), some i)
    ])
into_free s p kind none c wf f = (refl, f)
into_free s p kind (some i) c wf f =
    let n = f.2.0 in
    let at : At s.wins i n = subst (λ k. At s.wins k n) (omega (arith, f.1)) f.2.1 in
    let run = at_window_lem s i (open_at s i p kind) n at in
    (
      (n, at, f.2.2, ap (λ t. t.wins) run ∙ open_at_wins s i p kind n),
      ap win_topmost_index run ∙ open_at_top s i p kind n c wf at,
    )

-- While the order counter does not wrap, in a well-formed table: win_open fills a slot that was free
-- and changes no other, and the new window is the topmost one; it returns -1 only when every slot is
-- in use, and then changes nothing.
pub win_open_lem :
    (s : Desktop) (x y w h : ℤ) (kind : ℕ)
    → s.order_counter + 1 < 2 ^ 32
    → WellFormed s
    → Opened s (open_place s x y w h) kind (win_open s x y w h kind)
unfolding win_open
win_open_lem s x y w h kind c wf =
    into_free s (open_place s x y w h) kind (free_slot 0 s.wins) c wf (free_slot_lem 0 s.wins)

not_left : (x : ℤ) → pos 0 ≤ℤ (if ltb_ℤ x (pos 0) then pos 0 else x)
not_left x = ground arith

moved_in :
    (x w bound : ℤ)
    → pos 0 ≤ℤ x
    → pos 0 <ℤ w
    → w ≤ℤ bound
    → Within (if ltb_ℤ bound (x +ℤ w) then bound -ℤ w else x) w bound
moved_in x w bound l h k = elim (Bool-cases (ltb_ℤ bound (x +ℤ w))) [
  | inl e ↦
      rw e (
        omega (arith, -ℤ_parts bound w),
        h,
        omega (arith, -ℤ_parts bound w, +ℤ_parts (bound -ℤ w) w),
      )
  | inr e ↦ rw e (l, h, ground arith)
]

least_size : (w least : ℤ) → least ≤ℤ w → (if ltb_ℤ w least then least else w) ≡ w
least_size w least h = ground arith

-- For a window of at least the least size, 200 by 120: win_open puts it above the taskbar if and only
-- if it is no larger than the room there.
pub open_place_lem :
    (s : Desktop) (x y w h : ℤ)
    → min_win_w ≤ℤ w
    → min_win_h ≤ℤ h
    → InWork s
        (open_place s x y w h).0
        (open_place s x y w h).1
        (open_place s x y w h).2
        (open_place s x y w h).3
      ↔ ((w ≤ℤ pos s.width) × (h ≤ℤ work_h s))
unfolding open_place
open_place_lem s x y w h lw lh =
    rw (least_size w min_win_w lw, least_size h min_win_h lh, open_place)
      (
        λ k. (Within-size _ w (pos s.width) k.0, Within-size _ h (work_h s) k.1),
        λ k. (
          moved_in (if ltb_ℤ x (pos 0) then pos 0 else x) w (pos s.width) (not_left x) (omega arith)
              k.0,
          moved_in (if ltb_ℤ y (pos 0) then pos 0 else y) h (work_h s) (not_left y) (omega arith)
              k.1,
        ),
      )

set-set : {A : Type 0} (xs : List A) (i : ℕ) (a b : A) → set (set xs i a) i b ≡ set xs i b
set-set [] i a b = refl
set-set (x ∷ xs) zero a b = refl
set-set (x ∷ xs) (suc i) a b = ap (λ r. x ∷ r) (set-set xs i a b)

toggle_once :
    (s : Desktop) (i : ℕ) (n : Window)
    → At s.wins i n
    → n.used ≡ true
    → win_toggle_max s i ≡ resized s i n
unfolding win_toggle_max
toggle_once s i n at u =
    at_window_lem s i (λ w. if not w.used then s else resized s i w) n at
    ∙ if_false {b = not n.used} _ _ (ground arith)

resized_wins :
    (s : Desktop) (i : ℕ) (n : Window) → (resized s i n).wins ≡ set s.wins i (toggled s n)
unfolding resized
resized_wins s i n = refl

maximized : (s : Desktop) (n : Window) → n.maximized ≡ false → (toggled s n).used ≡ n.used
unfolding toggled
maximized s n m = rw m refl

back_again :
    (s t : Desktop) (n : Window)
    → n.maximized ≡ false
    → toggled t (toggled s n) ≡ record n { rest_x = n.x; rest_y = n.y; rest_w = n.w; rest_h = n.h }
unfolding toggled
back_again s t n m =
    ap (toggled t) (if_true {b = not n.maximized} _ _ (ground arith))
    ∙ ap (λ b. record n { rest_x = n.x; rest_y = n.y; rest_w = n.w; rest_h = n.h; maximized = b })
        (sym m)

-- A window that is not maximized is back in its place after win_toggle_max was used twice, and no
-- other window changes.
pub toggle_twice :
    (s : Desktop) (i : ℕ) (n : Window)
    → At s.wins i n
    → n.used ≡ true
    → n.maximized ≡ false
    → (win_toggle_max (win_toggle_max s i) i).wins
      ≡ set s.wins i (record n { rest_x = n.x; rest_y = n.y; rest_w = n.w; rest_h = n.h })
toggle_twice s i n at u m =
    let t = resized s i n in
    let at_t : At t.wins i (toggled s n) =
      ap (λ ws. get_elem? ws i) (resized_wins s i n)
      ∙ get_elem?-set_self s.wins i (toggled s n) (At-range s.wins i n at) in
    ap (λ d. (win_toggle_max d i).wins) (toggle_once s i n at u)
    ∙ ap (λ d. d.wins) (toggle_once t i (toggled s n) at_t (maximized s n m ∙ u))
    ∙ resized_wins t i (toggled s n)
    ∙ ap₂ (λ ws v. set ws i v) (resized_wins s i n) (back_again s t n m)
    ∙ set-set s.wins i _ _
