-- ===== src/Desktop/Manager/Tests.antt =====
-- kernel/desktop.c: a table with one free slot.
use sol_os.Base.{◌≡◌, refl, Bool, true, false, some, List, [], ◌∷◌}
use sol_os.Desktop.Fs.{FsFile}
use sol_os.Desktop.Manager.{fm_nth}

abbrev a_file : Bool → FsFile
a_file u = record { name = 97 ∷ []; bytes = λ i. 0; len = 0; used = u }

abbrev three_slots : List FsFile
three_slots = a_file true ∷ a_file false ∷ a_file true ∷ []

second_file : fm_nth three_slots 1 ≡ some 2
unfolding fm_nth
second_file = refl
