-- ===== src/Arch/Keyboard.antt =====
-- kernel/arch/x86_64/keyboard.c: scancodes to characters, and the ring that holds them.
pub mod Ring
pub mod Handler
mod Tests
use sol_os.Base.{
  ℕ, ◌+◌, ◌-◌, ◌%◌, bit_and, bit_or, Option, none, some, List, [], ◌∷◌, ◌==◌, if◌then◌else◌, set,
  get_or, bit,
}

-- `scancode_ascii` and `scancode_shifted`; the rest of each table is 0.
abbrev pub scancode_ascii : List ℕ
scancode_ascii =
    0 ∷ 27 ∷ 49 ∷ 50 ∷ 51 ∷ 52 ∷ 53 ∷ 54 ∷ 55 ∷ 56 ∷ 57 ∷ 48 ∷ 45 ∷ 61 ∷ 8 ∷ 9 ∷ 113 ∷ 119 ∷ 101
    ∷ 114 ∷ 116 ∷ 121 ∷ 117 ∷ 105 ∷ 111 ∷ 112 ∷ 91 ∷ 93 ∷ 10 ∷ 0 ∷ 97 ∷ 115 ∷ 100 ∷ 102 ∷ 103 ∷ 104
    ∷ 106 ∷ 107 ∷ 108 ∷ 59 ∷ 39 ∷ 96 ∷ 0 ∷ 92 ∷ 122 ∷ 120 ∷ 99 ∷ 118 ∷ 98 ∷ 110 ∷ 109 ∷ 44 ∷ 46 ∷ 47
    ∷ 0 ∷ 42 ∷ 0 ∷ 32 ∷ []

abbrev pub scancode_shifted : List ℕ
scancode_shifted =
    0 ∷ 27 ∷ 33 ∷ 64 ∷ 35 ∷ 36 ∷ 37 ∷ 94 ∷ 38 ∷ 42 ∷ 40 ∷ 41 ∷ 95 ∷ 43 ∷ 8 ∷ 9 ∷ 81 ∷ 87 ∷ 69 ∷ 82
    ∷ 84 ∷ 89 ∷ 85 ∷ 73 ∷ 79 ∷ 80 ∷ 123 ∷ 125 ∷ 10 ∷ 0 ∷ 65 ∷ 83 ∷ 68 ∷ 70 ∷ 71 ∷ 72 ∷ 74 ∷ 75 ∷ 76
    ∷ 58 ∷ 34 ∷ 126 ∷ 0 ∷ 124 ∷ 90 ∷ 88 ∷ 67 ∷ 86 ∷ 66 ∷ 78 ∷ 77 ∷ 60 ∷ 62 ∷ 63 ∷ 0 ∷ 42 ∷ 0 ∷ 32
    ∷ []

abbrev pub buf_size : ℕ
buf_size = 128

-- The module's static variables. `eois` counts the calls of `pic_send_eoi(1)`.
pub record Keyboard : Type 0 where
  pub buf : List ℕ
  pub head : ℕ
  pub tail : ℕ
  pub shift_state : ℕ
  pub eois : ℕ

unfoldable pub buf_push : Keyboard → ℕ → Keyboard
buf_push k c =
    let next = (k.head + 1) % buf_size in
    if next == k.tail then k else record k { buf = set k.buf k.head c; head = next }

-- The character, if there is one.
unfoldable pub read_char : Keyboard → Keyboard × Option ℕ
read_char k =
    if k.tail == k.head
    then (k, none)
    else (record k { tail = (k.tail + 1) % buf_size }, some (get_or k.buf k.tail 0))

abbrev pub shift_l : ℕ
shift_l = 1

abbrev pub shift_r : ℕ
shift_r = 2

unfoldable pub send_eoi : Keyboard → Keyboard
send_eoi k = record k { eois = k.eois + 1 }

-- `shift_state &= ~flag`, on `uint8_t`
abbrev pub clear_flag : ℕ → ℕ → ℕ
clear_flag s flag = bit_and s (255 - flag)

unfoldable pub translate : ℕ → ℕ → ℕ
translate shift code =
    if shift == 0 then get_or scancode_ascii code 0 else get_or scancode_shifted code 0

unfoldable pub on_break : Keyboard → ℕ → Keyboard
on_break k code =
    if code == 0x2a
    then record k { shift_state = clear_flag k.shift_state shift_l }
    else if code == 0x36
    then record k { shift_state = clear_flag k.shift_state shift_r }
    else k

unfoldable pub on_make : Keyboard → ℕ → Keyboard
on_make k code = let c = translate k.shift_state code in if c == 0 then k else buf_push k c

-- `keyboard_handler`, on the byte that the data port gives.
unfoldable pub handler : Keyboard → ℕ → Keyboard
handler k scancode =
    if bit scancode 7 == 1
    then send_eoi (on_break k (scancode % 128))
    else if scancode == 0x2a
    then send_eoi (record k { shift_state = bit_or k.shift_state shift_l })
    else if scancode == 0x36
    then send_eoi (record k { shift_state = bit_or k.shift_state shift_r })
    else send_eoi (on_make k (scancode % 128))
