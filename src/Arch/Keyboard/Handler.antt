-- ===== src/Arch/Keyboard/Handler.antt =====
-- kernel/arch/x86_64/keyboard.c: what an interrupt puts into the queue, and what it leaves alone.
use sol_os.Base.{
  ap₂, ℕ, ◌+◌, ◌%◌, ◌<◌, bit_or, ◌≡◌, refl, ap, ◌∙◌, Option, List, [], ◌∷◌, arith, ◌==◌,
  if◌then◌else◌, bit,
}
use sol_os.Arch.Keyboard.{
  Keyboard, buf_push, translate, handler, read_char, shift_l, shift_r, clear_flag, send_eoi,
  on_make, on_break,
}
use sol_os.Arch.Keyboard.Ring.{
  contents_same, IsValid, contents, enqueue, dequeue, buf_push_lem, read_char_lem,
}

-- The character that a scancode types while `shift` is held: 0 for a release, a shift key, or a key
-- without one.
unfoldable pub typed : ℕ → ℕ → ℕ
typed shift scancode =
    if bit scancode 7 == 1
    then 0
    else if scancode == 0x2a
    then 0
    else if scancode == 0x36
    then 0
    else translate shift (scancode % 128)

-- The shift keys that are held after a scancode.
unfoldable pub shift_after : ℕ → ℕ → ℕ
shift_after shift scancode =
    if scancode == 0x2a
    then bit_or shift shift_l
    else if scancode == 0x36
    then bit_or shift shift_r
    else if scancode == 0xaa
    then clear_flag shift shift_l
    else if scancode == 0xb6
    then clear_flag shift shift_r
    else shift

abbrev pub enqueue_typed : List ℕ → ℕ → List ℕ
enqueue_typed q c = if c == 0 then q else enqueue q c

eois-buf_push : (k : Keyboard) (c : ℕ) → (buf_push k c).eois ≡ k.eois
unfolding buf_push
eois-buf_push k c = ground arith

shift-buf_push : (k : Keyboard) (c : ℕ) → (buf_push k c).shift_state ≡ k.shift_state
unfolding buf_push
shift-buf_push k c = ground arith

on_make-eq :
    (k : Keyboard) (code : ℕ)
    → on_make k code
      ≡ (if translate k.shift_state code == 0 then k else buf_push k (translate k.shift_state code))
unfolding on_make
on_make-eq k code = refl

shift-read_char : (k : Keyboard) → (read_char k).0.shift_state ≡ k.shift_state
unfolding read_char
shift-read_char k = ground arith

handler-IsValid : (k : Keyboard) (scancode : ℕ) → IsValid k → IsValid (handler k scancode)
unfolding handler send_eoi on_break on_make
handler-IsValid k scancode v =
    ground (arith, (buf_push_lem k (translate k.shift_state (scancode % 128)) v).0)

handler-contents :
    (k : Keyboard) (scancode : ℕ)
    → IsValid k
    → contents (handler k scancode) ≡ enqueue_typed (contents k) (typed k.shift_state scancode)
unfolding handler send_eoi on_break on_make typed shift_after
handler-contents k scancode v =
    let c = translate k.shift_state (scancode % 128) in
    ground (
      arith,
      (buf_push_lem k c v).1,
      contents_same (buf_push k c) (buf_push k c).shift_state (k.eois + 1),
      contents_same k k.shift_state (k.eois + 1),
      contents_same k (bit_or k.shift_state shift_l) (k.eois + 1),
      contents_same k (bit_or k.shift_state shift_r) (k.eois + 1),
      contents_same k (clear_flag k.shift_state shift_l) (k.eois + 1),
      contents_same k (clear_flag k.shift_state shift_r) (k.eois + 1),
      eois-buf_push k c,
    )

handler-shift :
    (k : Keyboard) (scancode : ℕ)
    → scancode < 256
    → (handler k scancode).shift_state ≡ shift_after k.shift_state scancode
unfolding handler send_eoi on_break on_make typed shift_after
handler-shift k scancode h =
    ground (arith, shift-buf_push k (translate k.shift_state (scancode % 128)))

handler-eois : (k : Keyboard) (scancode : ℕ) → (handler k scancode).eois ≡ k.eois + 1
unfolding handler send_eoi on_break on_make typed shift_after
handler-eois k scancode = ground (arith, eois-buf_push k (translate k.shift_state (scancode % 128)))

-- Every interrupt keeps the ring valid, is acknowledged once, tracks the shift keys, and queues the
-- character that the scancode types, if it types one.
pub handler_lem :
    (k : Keyboard) (scancode : ℕ)
    → IsValid k
    → scancode < 256
    → IsValid (handler k scancode)
      × (contents (handler k scancode) ≡ enqueue_typed (contents k) (typed k.shift_state scancode))
      × ((handler k scancode).shift_state ≡ shift_after k.shift_state scancode)
      × ((handler k scancode).eois ≡ k.eois + 1)
handler_lem k scancode v h = (
  handler-IsValid k scancode v,
  handler-contents k scancode v,
  handler-shift k scancode h,
  handler-eois k scancode,
)

pub data Event : Type 0 where
  irq : ℕ → Event
  read : Event

-- The driver on a sequence of interrupts and reads, with what the reads return.
unfoldable pub run : Keyboard → List Event → List (Option ℕ)
run k [] = []
run k (irq s ∷ es) = run (handler k s) es
run k (read ∷ es) = let (k', c) = read_char k in c ∷ run k' es

-- The specification: a bounded queue and the shift state.
unfoldable pub run_queue : List ℕ → ℕ → List Event → List (Option ℕ)
run_queue q shift [] = []
run_queue q shift (irq s ∷ es) =
    run_queue (enqueue_typed q (typed shift s)) (shift_after shift s) es
run_queue q shift (read ∷ es) = let (q', c) = dequeue q in c ∷ run_queue q' shift es

abbrev pub AreBytes : List Event → Type 0
AreBytes [] = Unit {0}
AreBytes (irq s ∷ es) = (s < 256) × AreBytes es
AreBytes (read ∷ es) = AreBytes es

-- Over any sequence of interrupts and reads, a valid driver returns the characters that the queue
-- of its contents returns.
pub run_refines :
    (es : List Event) (k : Keyboard)
    → IsValid k
    → AreBytes es
    → run k es ≡ run_queue (contents k) k.shift_state es
unfolding run run_queue
run_refines [] k v b = refl
run_refines (irq s ∷ es) k v b =
    let (v', queued, shift, _) = handler_lem k s v b.0 in
    run_refines es (handler k s) v' b.1 ∙ ap₂ (λ q t. run_queue q t es) queued shift
run_refines (read ∷ es) k v b =
    ap (λ l. (read_char k).1 ∷ l) (run_refines es (read_char k).0 (read_char_lem k v).0 b)
    ∙ ap (λ t. (read_char k).1 ∷ run_queue (contents (read_char k).0) t es) (shift-read_char k)
    ∙ ap (λ (r : List ℕ × Option ℕ). r.1 ∷ run_queue r.0 k.shift_state es) (read_char_lem k v).1
