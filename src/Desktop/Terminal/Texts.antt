-- ===== src/Desktop/Terminal/Texts.antt =====
-- kernel/desktop.c: the texts of the terminal, as character codes.
use sol_os.Base.{ℕ, List, [], ◌∷◌}

-- "solos@sol$ "
abbrev pub prompt : List ℕ
prompt = 115 ∷ 111 ∷ 108 ∷ 111 ∷ 115 ∷ 64 ∷ 115 ∷ 111 ∷ 108 ∷ 36 ∷ 32 ∷ []

-- "Commands: help, clear, about, echo,"
abbrev pub help_1 : List ℕ
help_1 =
    67 ∷ 111 ∷ 109 ∷ 109 ∷ 97 ∷ 110 ∷ 100 ∷ 115 ∷ 58 ∷ 32 ∷ 104 ∷ 101 ∷ 108 ∷ 112 ∷ 44 ∷ 32 ∷ 99
    ∷ 108 ∷ 101 ∷ 97 ∷ 114 ∷ 44 ∷ 32 ∷ 97 ∷ 98 ∷ 111 ∷ 117 ∷ 116 ∷ 44 ∷ 32 ∷ 101 ∷ 99 ∷ 104 ∷ 111
    ∷ 44 ∷ []

-- "time, date, mem, reboot."
abbrev pub help_2 : List ℕ
help_2 =
    116 ∷ 105 ∷ 109 ∷ 101 ∷ 44 ∷ 32 ∷ 100 ∷ 97 ∷ 116 ∷ 101 ∷ 44 ∷ 32 ∷ 109 ∷ 101 ∷ 109 ∷ 44 ∷ 32
    ∷ 114 ∷ 101 ∷ 98 ∷ 111 ∷ 111 ∷ 116 ∷ 46 ∷ []

-- "Sol OS"
abbrev pub about_1 : List ℕ
about_1 = 83 ∷ 111 ∷ 108 ∷ 32 ∷ 79 ∷ 83 ∷ []

-- "Version 0.1"
abbrev pub about_2 : List ℕ
about_2 = 86 ∷ 101 ∷ 114 ∷ 115 ∷ 105 ∷ 111 ∷ 110 ∷ 32 ∷ 48 ∷ 46 ∷ 49 ∷ []

-- "Architecture: x86_64"
abbrev pub about_3 : List ℕ
about_3 =
    65 ∷ 114 ∷ 99 ∷ 104 ∷ 105 ∷ 116 ∷ 101 ∷ 99 ∷ 116 ∷ 117 ∷ 114 ∷ 101 ∷ 58 ∷ 32 ∷ 120 ∷ 56 ∷ 54
    ∷ 95 ∷ 54 ∷ 52 ∷ []

-- "Resolution: 1920x1080"
abbrev pub about_4 : List ℕ
about_4 =
    82 ∷ 101 ∷ 115 ∷ 111 ∷ 108 ∷ 117 ∷ 116 ∷ 105 ∷ 111 ∷ 110 ∷ 58 ∷ 32 ∷ 49 ∷ 57 ∷ 50 ∷ 48 ∷ 120
    ∷ 49 ∷ 48 ∷ 56 ∷ 48 ∷ []

-- "Bootloader: Limine"
abbrev pub about_5 : List ℕ
about_5 =
    66 ∷ 111 ∷ 111 ∷ 116 ∷ 108 ∷ 111 ∷ 97 ∷ 100 ∷ 101 ∷ 114 ∷ 58 ∷ 32 ∷ 76 ∷ 105 ∷ 109 ∷ 105 ∷ 110
    ∷ 101 ∷ []

-- "Rebooting..."
abbrev pub rebooting : List ℕ
rebooting = 82 ∷ 101 ∷ 98 ∷ 111 ∷ 111 ∷ 116 ∷ 105 ∷ 110 ∷ 103 ∷ 46 ∷ 46 ∷ 46 ∷ []

-- "Unknown command. Type 'help'."
abbrev pub unknown : List ℕ
unknown =
    85 ∷ 110 ∷ 107 ∷ 110 ∷ 111 ∷ 119 ∷ 110 ∷ 32 ∷ 99 ∷ 111 ∷ 109 ∷ 109 ∷ 97 ∷ 110 ∷ 100 ∷ 46 ∷ 32
    ∷ 84 ∷ 121 ∷ 112 ∷ 101 ∷ 32 ∷ 39 ∷ 104 ∷ 101 ∷ 108 ∷ 112 ∷ 39 ∷ 46 ∷ []

-- "help"
abbrev pub w_help : List ℕ
w_help = 104 ∷ 101 ∷ 108 ∷ 112 ∷ []

-- "clear"
abbrev pub w_clear : List ℕ
w_clear = 99 ∷ 108 ∷ 101 ∷ 97 ∷ 114 ∷ []

-- "about"
abbrev pub w_about : List ℕ
w_about = 97 ∷ 98 ∷ 111 ∷ 117 ∷ 116 ∷ []

-- "echo"
abbrev pub w_echo : List ℕ
w_echo = 101 ∷ 99 ∷ 104 ∷ 111 ∷ []

-- "time"
abbrev pub w_time : List ℕ
w_time = 116 ∷ 105 ∷ 109 ∷ 101 ∷ []

-- "date"
abbrev pub w_date : List ℕ
w_date = 100 ∷ 97 ∷ 116 ∷ 101 ∷ []

-- "mem"
abbrev pub w_mem : List ℕ
w_mem = 109 ∷ 101 ∷ 109 ∷ []

-- "reboot"
abbrev pub w_reboot : List ℕ
w_reboot = 114 ∷ 101 ∷ 98 ∷ 111 ∷ 111 ∷ 116 ∷ []

-- "Time: --:--:--"
abbrev pub no_time : List ℕ
no_time = 84 ∷ 105 ∷ 109 ∷ 101 ∷ 58 ∷ 32 ∷ 45 ∷ 45 ∷ 58 ∷ 45 ∷ 45 ∷ 58 ∷ 45 ∷ 45 ∷ []

-- "Time: "
abbrev pub time_is : List ℕ
time_is = 84 ∷ 105 ∷ 109 ∷ 101 ∷ 58 ∷ 32 ∷ []

-- "Date: "
abbrev pub date_is : List ℕ
date_is = 68 ∷ 97 ∷ 116 ∷ 101 ∷ 58 ∷ 32 ∷ []

-- "Date: --/--/----"
abbrev pub no_date : List ℕ
no_date = 68 ∷ 97 ∷ 116 ∷ 101 ∷ 58 ∷ 32 ∷ 45 ∷ 45 ∷ 47 ∷ 45 ∷ 45 ∷ 47 ∷ 45 ∷ 45 ∷ 45 ∷ 45 ∷ []

-- " IST"
abbrev pub ist : List ℕ
ist = 32 ∷ 73 ∷ 83 ∷ 84 ∷ []

-- "???"
abbrev pub unknown_month : List ℕ
unknown_month = 63 ∷ 63 ∷ 63 ∷ []

-- "Heap: "
abbrev pub heap_is : List ℕ
heap_is = 72 ∷ 101 ∷ 97 ∷ 112 ∷ 58 ∷ 32 ∷ []

-- " KiB used, "
abbrev pub kib_used : List ℕ
kib_used = 32 ∷ 75 ∷ 105 ∷ 66 ∷ 32 ∷ 117 ∷ 115 ∷ 101 ∷ 100 ∷ 44 ∷ 32 ∷ []

-- " KiB free"
abbrev pub kib_free : List ℕ
kib_free = 32 ∷ 75 ∷ 105 ∷ 66 ∷ 32 ∷ 102 ∷ 114 ∷ 101 ∷ 101 ∷ []

-- `g_months`
abbrev pub month_names : List (List ℕ)
month_names =
    (74 ∷ 97 ∷ 110 ∷ [])
    ∷ (70 ∷ 101 ∷ 98 ∷ [])
    ∷ (77 ∷ 97 ∷ 114 ∷ [])
    ∷ (65 ∷ 112 ∷ 114 ∷ [])
    ∷ (77 ∷ 97 ∷ 121 ∷ [])
    ∷ (74 ∷ 117 ∷ 110 ∷ [])
    ∷ (74 ∷ 117 ∷ 108 ∷ [])
    ∷ (65 ∷ 117 ∷ 103 ∷ [])
    ∷ (83 ∷ 101 ∷ 112 ∷ [])
    ∷ (79 ∷ 99 ∷ 116 ∷ [])
    ∷ (78 ∷ 111 ∷ 118 ∷ [])
    ∷ (68 ∷ 101 ∷ 99 ∷ [])
    ∷ []
