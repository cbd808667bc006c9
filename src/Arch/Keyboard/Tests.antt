-- ===== src/Arch/Keyboard/Tests.antt =====
-- kernel/arch/x86_64/keyboard.c on a few keys.
use sol_os.Base.{◌≡◌, refl, none, some, List, [], ◌∷◌, arith, replicate}
use sol_os.Arch.Keyboard.{
  Keyboard, handler, translate, read_char, buf_push, send_eoi, on_make, on_break,
}
use sol_os.Arch.Keyboard.Ring.{IsValid, contents, enqueue, dequeue, buf_push_lem, read_char_lem}
use sol_os.Arch.Keyboard.Handler.{Event, irq, read, run, run_queue, run_refines}

-- The driver as it starts.
abbrev fresh : Keyboard
fresh = record { buf = replicate 128 0; head = 0; tail = 0; shift_state = 0; eois = 0 }

fresh-IsValid : IsValid fresh
fresh-IsValid = record { storage = refl; head_in = omega arith; tail_in = omega arith }

-- Shift down, A down, shift up, A up, A down: "Aa".
abbrev keys : List Event
keys = irq 0x2a ∷ irq 0x1e ∷ irq 0xaa ∷ irq 0x9e ∷ irq 0x1e ∷ read ∷ read ∷ read ∷ []

run-keys : run fresh keys ≡ some b'A' ∷ some b'a' ∷ none ∷ []
unfolding run handler read_char buf_push translate send_eoi on_make on_break
run-keys = refl

buf_push_lem_example :
    IsValid (buf_push fresh 7) × (contents (buf_push fresh 7) ≡ enqueue (contents fresh) 7)
buf_push_lem_example = buf_push_lem fresh 7 fresh-IsValid

read_char_lem_example :
    IsValid (read_char fresh).0
    × ((contents (read_char fresh).0, (read_char fresh).1) ≡ dequeue (contents fresh))
read_char_lem_example = read_char_lem fresh fresh-IsValid

run_refines_example : run fresh keys ≡ run_queue (contents fresh) 0 keys
run_refines_example = run_refines keys fresh fresh-IsValid (omega arith)
