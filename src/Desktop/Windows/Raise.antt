-- ===== src/Desktop/Windows/Raise.antt =====
-- kernel/desktop.c: a raised, restored or new window is the topmost one.
use sol_os.Base.{
  subst, ℕ, zero, suc, ◌+◌, ◌^◌, ◌≤◌, ◌<◌, ◌≡◌, refl, ap, ◌∙◌, inl, inr, Bool, true, false, not,
  Option, none, some, List, [], ◌∷◌, arith, ◌==◌, if◌then◌else◌, if_false, length, set,
  get_elem?-set_self, All,
}
use sol_os.Base.Int.{}
use sol_os.Desktop.Windows.{
  Window, Desktop, shown, win_topmost_index, win_is_topmost, top_from, index_of,
}
use sol_os.Desktop.Windows.Ops.{
  win_raise, next_order, at_window, raised, restored, win_restore_from_taskbar,
}
use sol_os.Desktop.Windows.Slots.{At, Bounded, set_cases, At-range}
use sol_os.Desktop.Windows.Invariant.{WellFormed}
use sol_os.Desktop.Windows.Topmost.{Found, win_topmost_index_lem}

pub in_front : (x w : Window) → some x ≡ some w → x ≡ w
in_front x w e = cc

shown-used : (w : Window) → shown w ≡ true → w.used ≡ true
shown-used w h = ground arith

pub All-At :
    (P : Window → Type 0) (ws : List Window) (i : ℕ) (w : Window) → All P ws → At ws i w → P w
All-At P [] i w h at = absurd (cc)
All-At P (x ∷ xs) zero w h at = subst P (in_front x w at) h.0
All-At P (x ∷ xs) (suc i) w h at = All-At P xs i w h.1 at

-- A window shown with an order above the old counter: no other place is found.
newest :
    (ws : List Window) (i : ℕ) (v : Window) (c : ℕ) (r : Option ℕ)
    → i < length ws
    → Bounded ws c
    → shown v ≡ true
    → c < v.order
    → Found shown (set ws i v) r
    → r ≡ some i
newest ws i v c none l b sv h f =
    absurd (
      ground
        (arith, All-At (λ w. shown w ≡ false) (set ws i v) i v f (get_elem?-set_self ws i v l)))
newest ws i v c (some j) l b sv h f =
    let top =
      All-At (λ w. shown w ≡ true → w.order ≤ f.0.order) (set ws i v) i v f.3
        (get_elem?-set_self ws i v l) sv in
    elim (set_cases ws i v j f.0 f.1) [
      | inl e ↦ ap some e.0
      | inr e ↦ absurd (omega (arith, top, b j f.0 e.1 (shown-used f.0 f.2)))
    ]

-- The window of a place, after an operation that gives it a new order.
pub newest_top :
    (s t : Desktop) (i : ℕ) (n v : Window)
    → At s.wins i n
    → WellFormed s
    → t.wins ≡ set s.wins i v
    → shown v ≡ true
    → s.order_counter < v.order
    → win_topmost_index t ≡ some i
unfolding WellFormed
newest_top s t i n v at wf e sv h =
    newest s.wins i v s.order_counter (win_topmost_index t) (At-range s.wins i n at) wf.1 sv h
      (subst (λ ws. Found shown ws (win_topmost_index t)) e (win_topmost_index_lem t))

pub counter_up : (s : Desktop) → s.order_counter + 1 < 2 ^ 32 → s.order_counter < next_order s
counter_up s c = ground arith

raised_top :
    (s : Desktop) (i : ℕ) (n : Window)
    → s.order_counter + 1 < 2 ^ 32
    → WellFormed s
    → At s.wins i n
    → shown n ≡ true
    → win_topmost_index (raised s i n) ≡ some i
unfolding raised
raised_top s i n c wf at sh =
    newest_top s (raised s i n) i n (record n { order = next_order s }) at wf refl sh
      (counter_up s c)

restored_top :
    (s : Desktop) (i : ℕ) (n : Window)
    → s.order_counter + 1 < 2 ^ 32
    → WellFormed s
    → At s.wins i n
    → n.used ≡ true
    → win_topmost_index (restored s i n) ≡ some i
unfolding restored
restored_top s i n c wf at u =
    newest_top s (restored s i n) i n (record n { minimized = false; order = next_order s }) at wf
      refl (ground arith) (counter_up s c)

same_place :
    (o : Option ℕ) (i : ℕ)
    → elim o as (λ x. Bool) [ none ↦ false | some j ↦ j == i ] ≡ true
    → o ≡ some i
same_place none i h = absurd (ground arith)
same_place (some j) i h = ap some (ground arith)

is_topmost_lem : (s : Desktop) (i : ℕ) → win_is_topmost s i ≡ true → win_topmost_index s ≡ some i
unfolding win_is_topmost win_topmost_index
is_topmost_lem s i h = same_place (index_of (top_from shown none 0 s.wins)) i h

pub at_window_lem :
    (s : Desktop) (i : ℕ) (f : Window → Desktop) (n : Window)
    → At s.wins i n
    → at_window s i f ≡ f n
at_window_lem s i f n at = rw (at, at_window) refl

raise_cases :
    (s : Desktop) (i : ℕ) (n : Window) (b : Bool)
    → win_is_topmost s i ≡ b
    → s.order_counter + 1 < 2 ^ 32
    → WellFormed s
    → At s.wins i n
    → shown n ≡ true
    → win_topmost_index (if b then s else raised s i n) ≡ some i
raise_cases s i n true e c wf at sh = is_topmost_lem s i e
raise_cases s i n false e c wf at sh = raised_top s i n c wf at sh

-- While the order counter does not wrap, in a well-formed table: win_raise makes a window that is
-- shown the topmost one, and win_restore_from_taskbar makes a window in use the topmost one.
pub win_raise_lem :
    (s : Desktop) (i : ℕ) (n : Window)
    → s.order_counter + 1 < 2 ^ 32
    → WellFormed s
    → At s.wins i n
    → n.used ≡ true
    → (shown n ≡ true → win_topmost_index (win_raise s i) ≡ some i)
      × (win_topmost_index (win_restore_from_taskbar s i) ≡ some i)
unfolding win_raise win_restore_from_taskbar
win_raise_lem s i n c wf at u = (
  λ sh.
      ap win_topmost_index (at_window_lem s i _ n at)
      ∙ ap win_topmost_index (if_false {b = not n.used} _ _ (ground arith))
      ∙ raise_cases s i n (win_is_topmost s i) refl c wf at sh,
  ap win_topmost_index (at_window_lem s i _ n at)
      ∙ ap win_topmost_index (if_false {b = not n.used} _ _ (ground arith))
      ∙ restored_top s i n c wf at u,
)
