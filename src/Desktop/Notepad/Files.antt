-- ===== src/Desktop/Notepad/Files.antt =====
-- kernel/desktop.c: the notepad saves and opens files, and takes the keys. Each key is
-- followed by a redraw of the window, which is left out.
use sol_os.Base.{
  ℕ, zero, suc, ◌+◌, ◌-◌, ◌%◌, Bool, true, false, ◌&&◌, ◌||◌, not, Option, none, some, List, [],
  ◌∷◌, ◌++◌, ltb, leb, ◌==◌, if◌then◌else◌, length, get_elem?, take, drop,
}
use sol_os.Base.Int.{pos, negsuc}
use sol_os.Libc.{Memory, store}
use sol_os.Desktop.Fs.{FsFile, max_files, max_fname, fs_find, fs_create, fs_delete}
use sol_os.Desktop.Notepad.{
  Notepad, max_text, np_move_cursor, np_insert_char, np_delete_char, key_up, key_down,
}

abbrev pub max_fdata : ℕ
max_fdata = 4096

-- "untitled.txt"
abbrev pub untitled : List ℕ
untitled = 117 ∷ 110 ∷ 116 ∷ 105 ∷ 116 ∷ 108 ∷ 101 ∷ 100 ∷ 46 ∷ 116 ∷ 120 ∷ 116 ∷ []

-- `memcpy` between two arrays.
abbrev pub copied : Memory → Memory → ℕ → Memory
copied old src n = λ i. if ltb i n then src i else old i

-- The text goes to the file of that index, cut to the file's size.
unfoldable pub write_file : List FsFile → ℕ → Notepad → List FsFile
write_file [] i n = []
write_file (f ∷ fs) zero n =
    let to_copy = if ltb max_fdata n.len then max_fdata else n.len in
    record f { bytes = copied f.bytes n.text to_copy; len = to_copy } ∷ fs
write_file (f ∷ fs) (suc i) n = f ∷ write_file fs i n

-- `fs_find`, and `fs_create` when there is no such file.
unfoldable pub find_or_create : List FsFile → List ℕ → List FsFile × Option ℕ
unfolding fs_find fs_create
find_or_create t name = elim (fs_find t name) [ some i ↦ (t, some i) | none ↦ fs_create t name ]

-- A text without a name.
abbrev pub named : Notepad → Notepad
named n = record n { fname = elim n.fname [ [] ↦ untitled | c ∷ cs ↦ c ∷ cs ] }

-- A window without a title of its own takes the file's name.
abbrev pub titled : Notepad → Notepad
titled n = record n {
  title = elim n.title [ [] ↦ n.fname | c ∷ cs ↦ c ∷ cs ];
  own_title = elim n.title [ [] ↦ true | c ∷ cs ↦ n.own_title ];
}

unfoldable pub np_save : Notepad → List FsFile → Notepad × List FsFile
unfolding find_or_create write_file
np_save n t =
    let m = named n in
    let (t1, found) = find_or_create t m.fname in
    elim found [
      | none ↦ (m, t1)
      | some i ↦ (titled (record m { file_idx = some i; dirty = false }), write_file t1 i m)
    ]

-- `if (np_dirty) np_save`
abbrev pub save_if_dirty : Notepad → List FsFile → Notepad × List FsFile
unfolding np_save
save_if_dirty n t = if n.dirty then np_save n t else (n, t)

unfoldable pub np_new : Notepad → List FsFile → Notepad × List FsFile
np_new n t =
    let saved = save_if_dirty n t in
    (
      record saved.0 {
        len = 0;
        cursor = 0;
        fname = [];
        title = [];
        dirty = false;
        file_idx = none;
        text = store saved.0.text 0 0;
        own_title = true;
      },
      saved.1,
    )

abbrev pub used_at : List FsFile → ℕ → Bool
used_at [] i = false
used_at (f ∷ fs) zero = f.used
used_at (f ∷ fs) (suc i) = used_at fs i

-- The first file in use.
unfoldable pub first_used : ℕ → List FsFile → Option ℕ
first_used i [] = none
first_used i (f ∷ fs) = let rest = first_used (i + 1) fs in if f.used then some i else rest

-- `while (next != i && !used) next = (next + 1) % FS_MAX_FILES`, of at most 32 turns.
unfoldable pub next_used : ℕ → List FsFile → ℕ → ℕ → ℕ
next_used zero t i next = next
next_used (suc fuel) t i next =
    let rest = next_used fuel t i ((next + 1) % max_files) in
    if next == i || used_at t next then next else rest

-- The file behind the one that is open, or the first one.
unfoldable pub pick_next : List FsFile → Option ℕ → Option ℕ
unfolding first_used next_used
pick_next t none = first_used 0 t
pick_next t (some i) =
    if used_at t i then some (next_used max_files t i ((i + 1) % max_files)) else first_used 0 t

abbrev pub file_at : List FsFile → ℕ → Option FsFile
file_at t i = get_elem? t i

-- The notepad with the file's text.
unfoldable pub loaded : Notepad → ℕ → FsFile → Notepad
loaded n i f =
    let to_copy = if ltb (max_text - 1) f.len then max_text - 1 else f.len in
    record n {
      text = store (copied n.text f.bytes to_copy) to_copy 0;
      len = to_copy;
      cursor = to_copy;
      file_idx = some i;
      fname = take (max_fname - 1) f.name;
      dirty = false;
    }

-- The file is read after the save, which may have changed it.
unfoldable pub np_open_next : Notepad → List FsFile → Notepad × List FsFile
unfolding pick_next loaded
np_open_next n t = elim (pick_next t n.file_idx) [
  | none ↦ (n, t)
  | some i ↦
      let saved = save_if_dirty n t in
      elim (file_at saved.1 i) [
        | none ↦ (n, t)
        | some f ↦ if used_at t i then (loaded saved.0 i f, saved.1) else (n, t)
      ]
]

-- A character that a file's name may have.
unfoldable pub name_char : ℕ → Bool
name_char ch =
    (leb 97 ch && leb ch 122)
    || (leb 65 ch && leb ch 90)
    || (leb 48 ch && leb ch 57)
    || ch == 95
    || ch == 45
    || ch == 46

unfoldable pub all_name_chars : List ℕ → Bool
unfolding name_char
all_name_chars [] = true
all_name_chars (c ∷ cs) = name_char c && all_name_chars cs

unfoldable pub valid_name : List ℕ → Bool
unfolding all_name_chars
valid_name [] = false
valid_name (c ∷ cs) = all_name_chars (c ∷ cs)

-- Another file of the new name is deleted.
unfoldable pub make_room : List FsFile → List ℕ → Option ℕ → List FsFile
unfolding fs_find fs_delete
make_room t name old = elim (fs_find t name) [
  | none ↦ t
  | some i ↦ elim old [ none ↦ fs_delete t i | some j ↦ if i == j then t else fs_delete t i ]
]

-- Enter in the prompt for a name.
unfoldable pub save_under : Notepad → List FsFile → List ℕ → Notepad × List FsFile
unfolding make_room find_or_create write_file valid_name
save_under n t name =
    let (t1, found) = find_or_create (make_room t name n.file_idx) name in
    if not (valid_name name) then (n, t) else elim found [
      | none ↦ (n, t1)
      | some i ↦ (
        record n { file_idx = some i; dirty = false; fname = name; title = name; own_title = true },
        write_file t1 i n,
      )
    ]

abbrev pub prompt_closed : Notepad → Notepad
prompt_closed n = record n { save_as = false; save_as_buf = []; save_as_cursor = 0 }

-- The characters of the prompt's line move down over the one at `i`.
abbrev pub cut_char : List ℕ → ℕ → List ℕ
cut_char cs i = take i cs ++ drop (i + 1) cs

abbrev pub put_char : List ℕ → ℕ → ℕ → List ℕ
put_char cs i c = take i cs ++ (c ∷ drop i cs)

-- A character for the prompt's line, which holds at most 63.
unfoldable pub prompt_char : Notepad → ℕ → Notepad
prompt_char n c =
    let len = length n.save_as_buf in
    let at = if ltb len n.save_as_cursor then len else n.save_as_cursor in
    if ltb n.save_as_cursor (max_fname - 1) && ltb len (max_fname - 1)
    then record n { save_as_buf = put_char n.save_as_buf at c; save_as_cursor = at + 1 }
    else n

-- A key while the prompt is open.
unfoldable pub prompt_feed : Notepad → List FsFile → ℕ → Notepad × List FsFile
unfolding save_under prompt_char
prompt_feed n t c =
    let saved = save_under n t (take (max_fname - 1) n.save_as_buf) in
    if c == 27
    then (prompt_closed n, t)
    else if c == 10 || c == 13
    then (prompt_closed saved.0, saved.1)
    else if c == 8
    then (
      if ltb 0 n.save_as_cursor
          then record n {
            save_as_buf = cut_char n.save_as_buf (n.save_as_cursor - 1);
            save_as_cursor = n.save_as_cursor - 1;
          }
          else n,
      t,
    )
    else if leb 32 c && leb c 126
    then (prompt_char n c, t)
    else (n, t)

-- A key for the text.
unfoldable pub text_feed : Notepad → ℕ → Notepad
unfolding np_insert_char np_delete_char np_move_cursor key_up key_down
text_feed n c =
    if leb 32 c && leb c 126
    then np_insert_char n c
    else if c == 8
    then np_delete_char n
    else if c == 10
    then np_insert_char n 10
    else if c == 3
    then np_move_cursor n (negsuc 0)
    else if c == 4
    then np_move_cursor n (pos 1)
    else if c == 5
    then key_up n
    else if c == 6
    then key_down n
    else n

unfoldable pub np_feed : Notepad → List FsFile → ℕ → Notepad × List FsFile
unfolding prompt_feed text_feed
np_feed n t c = if n.save_as then prompt_feed n t c else (text_feed n c, t)
