-- ===== src/Desktop/Windows/Invariant.antt =====
-- kernel/desktop.c: what holds of the table of windows between two events.
use sol_os.Base.{
  ℕ, ◌+◌, ◌^◌, ◌<◌, ◌≡◌, refl, sym, ◌∙◌, inl, inr, Bool, true, false, not, Option, none, some, List,
  arith, if◌then◌else◌, Bool-cases, length, get_elem?, set, length-set,
}
use sol_os.Base.Int.{ℤ}
use sol_os.Desktop.Windows.{Window, Call, Desktop, shown, win_is_topmost}
use sol_os.Desktop.Windows.Ops.{
  next_order, release, at_window, win_open, win_raise, win_close, win_minimize,
  win_restore_from_taskbar, win_toggle_max, free_slot, opened, open_at, raised, closed, put_away,
  restored, toggled, resized, open_place,
}
use sol_os.Desktop.Windows.Slots.{
  At, Bounded, DistinctOrders, Grip, Reordered, set-Bounded, set-DistinctOrders, set-Grip,
  release-Grip,
}

-- Eight slots; distinct orders that the counter bounds; the pointer drags or resizes a shown window.
unfoldable pub WellFormed : Desktop → Type 0
WellFormed s =
    (length s.wins ≡ 8)
    × Bounded s.wins s.order_counter
    × DistinctOrders s.wins
    × Grip s.wins s.drag
    × Grip s.wins s.resize

-- The operations.
pub data Action : Type 0 where
  open_window : ℤ → ℤ → ℤ → ℤ → ℕ → Action
  raise : ℕ → Action
  close : ℕ → Action
  minimize : ℕ → Action
  restore : ℕ → Action
  toggle_max : ℕ → Action

abbrev pub act : Desktop → Action → Desktop
act s (open_window x y w h kind) = (win_open s x y w h kind).0
act s (raise i) = win_raise s i
act s (close i) = win_close s i
act s (minimize i) = win_minimize s i
act s (restore i) = win_restore_from_taskbar s i
act s (toggle_max i) = win_toggle_max s i

-- A window changes; the pointer keeps its hold.
kept-WellFormed :
    (s : Desktop) (i : ℕ) (n v : Window) (c : ℕ) (calls : List Call)
    → At s.wins i n
    → Reordered n v s.order_counter c
    → (shown n ≡ true → shown v ≡ true)
    → WellFormed s
    → WellFormed (record s { wins = set s.wins i v; order_counter = c; calls = calls })
unfolding WellFormed
kept-WellFormed s i n v c calls at r h wf = (
  length-set s.wins i v ∙ wf.0,
  set-Bounded s.wins i n v s.order_counter c at r wf.1,
  set-DistinctOrders s.wins i n v s.order_counter c at r wf.1 wf.2,
  set-Grip s.wins i n v s.drag at h wf.3,
  set-Grip s.wins i n v s.resize at h wf.4,
)

-- A window leaves the screen; the pointer lets it go.
released-WellFormed :
    (s : Desktop) (i : ℕ) (n v : Window) (calls : List Call)
    → At s.wins i n
    → (v.used ≡ true → n.used ≡ true)
    → v.order ≡ n.order
    → WellFormed s
    → WellFormed (record s {
      wins = set s.wins i v;
      drag = release s.drag i;
      resize = release s.resize i;
      calls = calls;
    })
unfolding WellFormed
released-WellFormed s i n v calls at u o wf =
    let r = inl (u, o, refl) in
    (
      length-set s.wins i v ∙ wf.0,
      set-Bounded s.wins i n v s.order_counter s.order_counter at r wf.1,
      set-DistinctOrders s.wins i n v s.order_counter s.order_counter at r wf.1 wf.2,
      release-Grip s.wins i v s.drag wf.3,
      release-Grip s.wins i v s.resize wf.4,
    )

-- An operation on a place of the table that has a window.
slot_cases :
    (s : Desktop) (i : ℕ) (f : Window → Desktop) (o : Option Window)
    → get_elem? s.wins i ≡ o
    → WellFormed s
    → ((n : Window) → At s.wins i n → WellFormed (f n))
    → WellFormed (elim o [ none ↦ s | some w ↦ f w ])
slot_cases s i f none e wf h = wf
slot_cases s i f (some n) e wf h = h n e

slot-WellFormed :
    (s : Desktop) (i : ℕ) (f : Window → Desktop)
    → WellFormed s
    → ((n : Window) → At s.wins i n → WellFormed (f n))
    → WellFormed (at_window s i f)
slot-WellFormed s i f wf h = slot_cases s i f (get_elem? s.wins i) refl wf h

pub fresh :
    (s : Desktop) (n v : Window)
    → s.order_counter + 1 < 2 ^ 32
    → v.order ≡ next_order s
    → Reordered n v s.order_counter (next_order s)
fresh s n v h e = inr (e, ground arith)

unless-WellFormed :
    (b : Bool) (s t : Desktop) → WellFormed s → WellFormed t → WellFormed (if b then s else t)
unless-WellFormed true s t h k = h
unless-WellFormed false s t h k = k

raised-WellFormed :
    (s : Desktop) (i : ℕ) (n : Window)
    → At s.wins i n
    → s.order_counter + 1 < 2 ^ 32
    → WellFormed s
    → WellFormed (raised s i n)
unfolding raised
raised-WellFormed s i n at h wf =
    let v = record n { order = next_order s } in
    kept-WellFormed s i n v (next_order s) _ at (fresh s n v h refl) (λ t. t) wf

restored-WellFormed :
    (s : Desktop) (i : ℕ) (n : Window)
    → At s.wins i n
    → s.order_counter + 1 < 2 ^ 32
    → WellFormed s
    → WellFormed (restored s i n)
unfolding restored
restored-WellFormed s i n at h wf =
    let v = record n { minimized = false; order = next_order s } in
    kept-WellFormed s i n v (next_order s) _ at (fresh s n v h refl) (λ t. ground arith) wf

open_at-WellFormed :
    (s : Desktop) (i : ℕ) (p : ℤ × ℤ × ℤ × ℤ) (kind : ℕ) (n : Window)
    → At s.wins i n
    → s.order_counter + 1 < 2 ^ 32
    → WellFormed s
    → WellFormed (open_at s i p kind n)
unfolding open_at
open_at-WellFormed s i p kind n at h wf =
    let v = opened s n p kind in
    kept-WellFormed s i n v (next_order s) _ at (fresh s n v h refl) (λ t. refl) wf

closed-WellFormed :
    (s : Desktop) (i : ℕ) (n : Window) → At s.wins i n → WellFormed s → WellFormed (closed s i n)
unfolding closed
closed-WellFormed s i n at wf =
    released-WellFormed s i n (record n { used = false }) _ at (λ u. absurd (ground arith)) refl wf

put_away-WellFormed :
    (s : Desktop) (i : ℕ) (n : Window) → At s.wins i n → WellFormed s → WellFormed (put_away s i n)
unfolding put_away
put_away-WellFormed s i n at wf =
    released-WellFormed s i n (record n { minimized = true }) _ at (λ u. u) refl wf

toggled_same :
    (s : Desktop) (n : Window)
    → ((toggled s n).used ≡ n.used)
      × ((toggled s n).minimized ≡ n.minimized)
      × ((toggled s n).order ≡ n.order)
unfolding toggled
toggled_same s n = elim (Bool-cases n.maximized) [
  | inl e ↦ rw e (refl, refl, refl)
  | inr e ↦ rw e (refl, refl, refl)
]

resized-WellFormed :
    (s : Desktop) (i : ℕ) (n : Window) → At s.wins i n → WellFormed s → WellFormed (resized s i n)
unfolding resized
resized-WellFormed s i n at wf =
    let same = toggled_same s n in
    kept-WellFormed s i n (toggled s n) s.order_counter _ at
      (inl (λ u. sym same.0 ∙ u, same.2, refl)) (λ t. ground (arith, same.0, same.1)) wf

into_slot :
    (s : Desktop) (p : ℤ × ℤ × ℤ × ℤ) (kind : ℕ) (o : Option ℕ)
    → s.order_counter + 1 < 2 ^ 32
    → WellFormed s
    → WellFormed
        (elim o as (λ x. Desktop × Option ℕ) [
          | none ↦ (s, none)
          | some i ↦ (at_window s i (open_at s i p kind), some i)
        ]).0
into_slot s p kind none c wf = wf
into_slot s p kind (some i) c wf =
    slot-WellFormed s i _ wf λ n at. open_at-WellFormed s i p kind n at c wf

-- While the order counter does not wrap, each operation on the windows keeps the table well formed:
-- eight slots, distinct orders of the windows in use, none above the counter, and a pointer that
-- drags or resizes only a window that is in use and not minimized.
pub act-WellFormed :
    (s : Desktop) (a : Action) → s.order_counter + 1 < 2 ^ 32 → WellFormed s → WellFormed (act s a)
unfolding win_open win_raise win_close win_minimize win_restore_from_taskbar win_toggle_max
act-WellFormed s (open_window x y w h kind) c wf =
    into_slot s (open_place s x y w h) kind (free_slot 0 s.wins) c wf
act-WellFormed s (raise i) c wf = slot-WellFormed s i _ wf λ n at.
    unless-WellFormed (not n.used) s (if win_is_topmost s i then s else raised s i n) wf
      (unless-WellFormed (win_is_topmost s i) s (raised s i n) wf (raised-WellFormed s i n at c wf))
act-WellFormed s (close i) c wf =
    slot-WellFormed s i _ wf
      λ n at. unless-WellFormed (not n.used) s (closed s i n) wf (closed-WellFormed s i n at wf)
act-WellFormed s (minimize i) c wf = slot-WellFormed s i _ wf λ n at.
    unless-WellFormed (not n.used) s (if n.minimized then s else put_away s i n) wf
      (unless-WellFormed n.minimized s (put_away s i n) wf (put_away-WellFormed s i n at wf))
act-WellFormed s (restore i) c wf =
    slot-WellFormed s i _ wf λ n at.
      unless-WellFormed (not n.used) s (restored s i n) wf (restored-WellFormed s i n at c wf)
act-WellFormed s (toggle_max i) c wf =
    slot-WellFormed s i _ wf
      λ n at. unless-WellFormed (not n.used) s (resized s i n) wf (resized-WellFormed s i n at wf)
