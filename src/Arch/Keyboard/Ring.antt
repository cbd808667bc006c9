-- ===== src/Arch/Keyboard/Ring.antt =====
-- kernel/arch/x86_64/keyboard.c: the ring behaves as a queue of at most 127 characters.
use sol_os.Base.{
  ap₂, ℕ, zero, suc, ◌+◌, ◌-◌, ◌%◌, ◌<◌, ◌≡◌, refl, ap, ◌≢◌, Option, none, some, List, [], ◌∷◌,
  ◌++◌, arith, ℕ_discrete, ltb, if◌then◌else◌, length, set, length-set, get_or, get_or-set_self,
  get_or-set_ne,
}
use sol_os.Arch.Keyboard.{Keyboard, buf_size, buf_push, read_char}

pub record IsValid (k : Keyboard) : Type 0 where
  pub storage : length k.buf ≡ buf_size
  pub head_in : k.head < buf_size
  pub tail_in : k.tail < buf_size

-- How many characters wait.
abbrev pub waiting : Keyboard → ℕ
waiting k = (k.head + buf_size - k.tail) % buf_size

module _ (buf : List ℕ) where
  -- The `n` characters from index `t` on, going round the end.
  abbrev pub window : ℕ → ℕ → List ℕ
  window t zero = []
  window t (suc n) = get_or buf t 0 ∷ window ((t + 1) % buf_size) n

unfoldable pub contents : Keyboard → List ℕ
contents k = window k.buf k.tail (waiting k)

length-window : (buf : List ℕ) (t n : ℕ) → length (window buf t n) ≡ n
length-window buf t zero = refl
length-window buf t (suc n) = ap suc (length-window buf ((t + 1) % buf_size) n)

-- A write just past the window extends it.
window-set :
    (buf : List ℕ) (c n t h : ℕ)
    → length buf ≡ buf_size
    → t < buf_size
    → n < buf_size
    → h ≡ (t + n) % buf_size
    → window (set buf h c) t (suc n) ≡ window buf t n ++ c ∷ []
window-set buf c zero t h s ht hn e =
    let same : h ≡ t = omega arith in
    rw same (ap (λ x. x ∷ []) (get_or-set_self buf t c 0 (omega arith)))
window-set buf c (suc n) t h s ht hn e =
    ap₂ ◌∷◌ (get_or-set_ne buf {i = h} {j = t} c 0 (omega arith))
      (window-set buf c n ((t + 1) % buf_size) h s (omega arith) (omega arith) (omega arith))

-- The specification: a queue that drops what does not fit.
abbrev pub enqueue : List ℕ → ℕ → List ℕ
enqueue q c = if ltb (length q) 127 then q ++ c ∷ [] else q

-- The shift state and the acknowledgements are no part of the queue.
pub contents_same :
    (k : Keyboard) (shift eois : ℕ)
    → contents (record k { shift_state = shift; eois = eois }) ≡ contents k
unfolding contents
contents_same k shift eois = refl

-- `kbd_buf_push` keeps the ring valid, and enqueues the character, or drops it where 127 wait already.
pub buf_push_lem :
    (k : Keyboard) (c : ℕ)
    → IsValid k
    → IsValid (buf_push k c) × (contents (buf_push k c) ≡ enqueue (contents k) c)
unfolding buf_push contents
buf_push_lem k c v = elim (ℕ_discrete (waiting k) 127) [
  | yes full ↦ ground (arith, length-window k.buf k.tail (waiting k))
  | no room ↦
      let more : ((k.head + 1) % buf_size + buf_size - k.tail) % buf_size ≡ suc (waiting k) =
        omega (arith, v.head_in, v.tail_in) in
      ground (
        arith,
        length-window k.buf k.tail (waiting k),
        window-set k.buf c (waiting k) k.tail k.head,
        length-set k.buf k.head c,
        ap (window (set k.buf k.head c) k.tail) more,
      )
]

abbrev pub dequeue : List ℕ → List ℕ × Option ℕ
dequeue [] = ([], none)
dequeue (c ∷ q) = (q, some c)

window_pos :
    (buf : List ℕ) (t n : ℕ)
    → n ≢ 0
    → window buf t n ≡ get_or buf t 0 ∷ window buf ((t + 1) % buf_size) (n - 1)
window_pos buf t zero h = absurd (h refl)
window_pos buf t (suc n) h = ap (λ k. window buf t (suc k)) (omega arith)

-- `keyboard_read_char` keeps the ring valid, and returns and removes the oldest character, if any.
pub read_char_lem :
    (k : Keyboard)
    → IsValid k
    → IsValid (read_char k).0
      × (((contents (read_char k).0), (read_char k).1) ≡ dequeue (contents k))
unfolding read_char contents
read_char_lem k v = elim (ℕ_discrete (waiting k) 0) [
  | yes empty ↦ ground (arith, ap (window k.buf k.tail) empty)
  | no some_wait ↦
      let t = (k.tail + 1) % buf_size in
      let fewer : (k.head + buf_size - t) % buf_size ≡ waiting k - 1 = omega arith in
      ground (arith, window_pos k.buf k.tail (waiting k) some_wait, ap (window k.buf t) fewer)
]
