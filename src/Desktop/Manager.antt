-- ===== src/Desktop/Manager.antt =====
-- kernel/desktop.c: the file manager's list and its keys. A key is followed by a redraw of the
-- window, and what opens a file is recorded only as the file's index.
pub mod Nth
mod Tests
use sol_os.Base.{
  ℕ, ◌+◌, ◌-◌, Bool, true, false, ◌||◌, Option, none, some, List, [], ◌∷◌, ltb, leb, ◌==◌,
  if◌then◌else◌,
}
use sol_os.Desktop.Fs.{FsFile, fs_delete}

-- The `fm_` fields of `struct desktop_window`; `fm_confirm_idx` is -1 as `none`.
pub record Manager : Type 0 where
  pub sel : ℕ
  pub scroll : ℕ
  pub confirming : Bool
  pub confirm_idx : Option ℕ

abbrev pub fm_init : Manager
fm_init = record { sel = 0; scroll = 0; confirming = false; confirm_idx = none }

unfoldable pub fm_count : List FsFile → ℕ
fm_count [] = 0
fm_count (f ∷ fs) = (if f.used then 1 else 0) + fm_count fs

-- The loop from file `i` on, with `c` files in use counted so far.
unfoldable pub nth_from : ℕ → ℕ → List FsFile → ℕ → Option ℕ
nth_from i c [] idx = none
nth_from i c (f ∷ fs) idx =
    let rest = nth_from (i + 1) (c + 1) fs idx in
    let skipped = nth_from (i + 1) c fs idx in
    if f.used then (if c == idx then some i else rest) else skipped

-- `none` is -1.
unfoldable pub fm_nth : List FsFile → ℕ → Option ℕ
unfolding nth_from
fm_nth t idx = nth_from 0 0 t idx

-- The selection after a file is gone.
unfoldable pub clamp_sel : List FsFile → ℕ → ℕ
unfolding fm_count
clamp_sel t sel =
    if leb (fm_count t) sel then (if ltb 0 (fm_count t) then fm_count t - 1 else 0) else sel

unfoldable pub fm_open_selected : Manager → List FsFile → Option ℕ
unfolding fm_nth
fm_open_selected m t = fm_nth t m.sel

abbrev pub asked : Manager → Manager
asked m = record m { confirming = false; confirm_idx = none }

-- The answer yes: the file of the confirmed place is deleted.
unfoldable pub fm_confirm : Manager → List FsFile → Manager × List FsFile
unfolding fm_nth clamp_sel fs_delete
fm_confirm m t = elim m.confirm_idx [
  | none ↦ (asked m, t)
  | some k ↦ elim (fm_nth t k) [
    | none ↦ (asked m, t)
    | some i ↦ (asked (record m { sel = clamp_sel (fs_delete t i) m.sel }), fs_delete t i)
  ]
]

-- The question before a deletion, for a place that has a file.
unfoldable pub fm_ask : Manager → List FsFile → Manager
unfolding fm_nth
fm_ask m t = elim (fm_nth t m.sel) [
  | none ↦ m
  | some i ↦ record m { confirming = true; confirm_idx = some m.sel }
]

-- A key, by desktop_poll: the manager, the files, and the file to open.
unfoldable pub fm_key : Manager → List FsFile → ℕ → Manager × List FsFile × Option ℕ
unfolding fm_confirm fm_ask fm_open_selected fm_count
fm_key m t kch =
    let yes = fm_confirm m t in
    if m.confirming
    then (if kch == 121 || kch == 89
        then (yes.0, yes.1, none)
        else if kch == 110 || kch == 78 || kch == 27
        then (asked m, t, none)
        else (m, t, none))
    else if kch == 10 || kch == 13
    then (m, t, fm_open_selected m t)
    else if kch == 5
    then (record m { sel = m.sel - 1 }, t, none)
    else if kch == 6
    then (record m { sel = if ltb (m.sel + 1) (fm_count t) then m.sel + 1 else m.sel }, t, none)
    else if kch == 127 || kch == 8
    then (fm_ask m t, t, none)
    else (m, t, none)
