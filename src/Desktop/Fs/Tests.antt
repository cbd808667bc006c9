-- ===== src/Desktop/Fs/Tests.antt =====
-- kernel/desktop.c: the file table's theorem on a concrete table.
use sol_os.Base.{◌≡◌, true, false, [], ◌∷◌, arith}
use sol_os.Desktop.Fs.{FsFile, fs_find, fs_create}
use sol_os.Desktop.Fs.Lookup.{fs_find-fs_create}

abbrev empty_slot : FsFile
empty_slot = record { name = []; bytes = λ i. 0; len = 0; used = false }

abbrev note : FsFile
note = record { name = 97 ∷ []; bytes = λ i. 0; len = 3; used = true }

fs_find-fs_create_example :
    fs_find (fs_create (note ∷ empty_slot ∷ []) (98 ∷ [])).0 (98 ∷ [])
    ≡ (fs_create (note ∷ empty_slot ∷ []) (98 ∷ [])).1
fs_find-fs_create_example = fs_find-fs_create (note ∷ empty_slot ∷ []) (98 ∷ []) (omega arith)
