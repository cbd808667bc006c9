-- ===== src/Desktop/Notepad/Tests.antt =====
-- kernel/desktop.c: a short text in the notepad.
use sol_os.Base.{ℕ, ◌<◌, ◌≡◌, true, false, none, [], ◌∷◌, ◌++◌, arith, ◌==◌, if◌then◌else◌}
use sol_os.Libc.{Memory}
use sol_os.Desktop.Fs.{FsFile}
use sol_os.Desktop.Notepad.{Notepad, np_insert_char, np_delete_char, key_down}
use sol_os.Desktop.Notepad.Edit.{before, after, InText, typing_lem}
use sol_os.Desktop.Notepad.Files.{named, np_save, find_or_create}
use sol_os.Desktop.Notepad.Saved.{SavedTo, np_save_lem}
use sol_os.Desktop.Notepad.Keys.{key_down_lem}

-- "hi", a line break and "yo"
abbrev hello : Memory
hello i =
    if i == 0
    then 104
    else if i == 1
    then 105
    else if i == 2
    then 10
    else if i == 3
    then 121
    else 111

-- The cursor stands between "y" and "o".
abbrev pad : Notepad
pad = record {
  text = hello;
  len = 5;
  cursor = 4;
  fname = [];
  title = [];
  own_title = false;
  dirty = true;
  file_idx = none;
  save_as = false;
  save_as_buf = [];
  save_as_cursor = 0;
}

abbrev no_file : FsFile
no_file = record { name = []; bytes = λ i. 0; len = 0; used = false }

typing_lem_example :
    (5 < 8191
      → (before (np_insert_char pad 63) ≡ before pad ++ (63 ∷ []))
        × (after (np_insert_char pad 63) ≡ after pad)
        × InText (np_insert_char pad 63))
    × (◌≡◌ {A = ℕ} 5 8191 → np_insert_char pad 63 ≡ pad)
    × (0 < 4
        → (before pad ≡ before (np_delete_char pad) ++ (121 ∷ []))
          × (after (np_delete_char pad) ≡ after pad)
          × InText (np_delete_char pad))
    × (◌≡◌ {A = ℕ} 4 0 → np_delete_char pad ≡ pad)
typing_lem_example = typing_lem pad 63 (omega arith, omega arith)

key_down_lem_example : key_down pad ≡ record pad { cursor = 5 }
key_down_lem_example = key_down_lem pad (omega arith, omega arith)

np_save_lem_example :
    SavedTo pad
      (find_or_create (no_file ∷ no_file ∷ []) (named pad).fname)
      (np_save pad (no_file ∷ no_file ∷ []))
np_save_lem_example = np_save_lem pad (no_file ∷ no_file ∷ [])
