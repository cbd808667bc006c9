-- ===== src/Libc/Tests.antt =====
-- libc/string.c on a small memory: runs of the model, and the theorems at inputs they apply to.
use sol_os.Base.{◌≡◌, refl, ◌||◌, [], ◌∷◌, arith, ◌==◌, if◌then◌else◌}
use sol_os.Base.Int.{negsuc}
use sol_os.Libc.{Memory, memmove, memcpy, memcmp}
use sol_os.Libc.Copy.{Copied, memcpy_lem, memmove_lem}
use sol_os.Libc.Text.{CString, bytes}

-- "ab" at 10 and "ad" at 20; 7 elsewhere.
abbrev room : Memory
room a =
    if a == 10 || a == 20
    then 97
    else if a == 11
    then 98
    else if a == 21
    then 100
    else if a == 12 || a == 22
    then 0
    else 7

text10 : CString room 10 2
text10 = (omega arith, (omega arith, refl))

text20 : CString room 20 2
text20 = (omega arith, (omega arith, refl))

-- Overlapping move up by one: "ab" becomes "aab".
moved : bytes (memmove room 11 10 2) 10 3 ≡ 97 ∷ 97 ∷ 98 ∷ []
unfolding memmove
moved = refl

-- `memcpy` on the same overlap repeats the first byte.
overlapped : bytes (memcpy room 11 10 2) 10 3 ≡ 97 ∷ 97 ∷ 97 ∷ []
unfolding memcpy
overlapped = refl

compared : memcmp room 10 20 3 ≡ negsuc 1
unfolding memcmp
compared = refl

memcpy_lem_example : Copied room 30 10 2 (memcpy room 30 10 2)
memcpy_lem_example = memcpy_lem room 30 10 2 (omega arith)

memmove_lem_example : Copied room 11 10 2 (memmove room 11 10 2)
memmove_lem_example = memmove_lem room 11 10 2
