-- ===== src/Arch/Mouse/Stream.antt =====
-- kernel/arch/x86_64/mouse.c: where the movement of a stream of bytes goes.
use sol_os.Base.{
  ℕ, ◌<◌, ◌≡◌, refl, sym, ap, ◌∙◌, inl, inr, false, List, [], ◌∷◌, ◌++◌, arith, ltb, ◌==◌,
  if◌then◌else◌, ==_iff, Bool-cases, if_true, if_false, bit, All,
}
use sol_os.Base.Int.{ℤ, ◌+ℤ◌, ◌-ℤ◌, +ℤ_zero, +ℤ_regroup, int_laws, pos}
use sol_os.Arch.Mouse.{Mouse, handler, get_delta, delta}

pub data Event : Type 0 where
  byte : ℕ → Event
  drain : Event

-- The driver on a sequence of interrupts and reads; `gx` and `gy` are the sums of what the reads
-- returned.
unfoldable pub run : Mouse → ℤ → ℤ → List Event → Mouse × ℤ × ℤ
run m gx gy [] = (m, gx, gy)
run m gx gy (byte b ∷ es) = run (handler m b) gx gy es
run m gx gy (drain ∷ es) = let (m', d) = get_delta m in run m' (gx +ℤ d.dx) (gy +ℤ d.dy) es

-- The bytes of a sequence.
unfoldable pub bytes : List Event → List ℕ
bytes [] = []
bytes (byte b ∷ es) = b ∷ bytes es
bytes (drain ∷ es) = bytes es

-- The PS/2 packets in a stream of bytes: three bytes from one on that has the sync bit; a byte in
-- front of a packet that has not is skipped.
unfoldable pub packets_of : List ℕ → List (ℕ × ℕ × ℕ)
packets_of [] = []
packets_of (a ∷ []) = []
packets_of (a ∷ b ∷ []) = []
packets_of (a ∷ b ∷ c ∷ xs) =
    let here = (a, b, c) ∷ packets_of xs in
    let later = packets_of (b ∷ c ∷ xs) in if bit a 3 == 1 then here else later

-- The movement on an axis: none where the packet reports an overflow, else a byte in two's complement.
abbrev pub movement : ℕ → ℕ → ℤ
movement overflow b = if overflow == 1 then pos 0 else if ltb b 128 then pos b else pos b -ℤ pos 256

-- Bits 6 and 7 of the first byte are the overflow of x and y.
abbrev pub moves : (ℕ × ℕ × ℕ) → ℤ × ℤ
moves (a, b, c) = (movement (bit a 6) b, movement (bit a 7) c)

delta-movement : (a k b : ℕ) → b < 256 → delta a k b ≡ movement (bit a k) b
unfolding ◌-ℤ◌
delta-movement a k b h = ground arith

zero_+ℤ : (a : ℤ) → a ≡ pos 0 +ℤ a
zero_+ℤ a = omega int_laws

unfoldable pub total : List (ℕ × ℕ × ℕ) → ℤ × ℤ
total [] = (pos 0, pos 0)
total (p ∷ ps) = ((moves p).0 +ℤ (total ps).0, (moves p).1 +ℤ (total ps).1)

-- The bytes of a packet that the handler has so far.
abbrev pub Begun : Mouse → List ℕ → Type 0
Begun m [] = m.cycle ≡ 0
Begun m (a ∷ []) = (m.cycle ≡ 1) × (m.packet0 ≡ a) × (bit a 3 ≡ 1)
Begun m (a ∷ b ∷ []) = (m.cycle ≡ 2) × (m.packet0 ≡ a) × (m.packet1 ≡ b) × (bit a 3 ≡ 1) × (b < 256)
Begun m (a ∷ b ∷ c ∷ xs) = ⊥

packets_of-skip :
    (a : ℕ) (xs : List ℕ) → (bit a 3 == 1) ≡ false → packets_of (a ∷ xs) ≡ packets_of xs
unfolding packets_of
packets_of-skip a [] e = refl
packets_of-skip a (b ∷ []) e = refl
packets_of-skip a (b ∷ c ∷ xs) e = if_false _ _ e

packets_of-here :
    (a b c : ℕ) (xs : List ℕ)
    → bit a 3 ≡ 1
    → packets_of (a ∷ b ∷ c ∷ xs) ≡ (a, b, c) ∷ packets_of xs
unfolding packets_of
packets_of-here a b c xs e = if_true _ _ ((==_iff (bit a 3) 1).1 e)

-- What a byte does: the packet goes on, or it is complete, or the byte is skipped.
handler_step :
    (m : Mouse) (b : ℕ) (xs ys : List ℕ)
    → b < 256
    → Begun m xs
    → (xs' : List ℕ) × (dx : ℤ) × (dy : ℤ) × Begun (handler m b) xs'
      × ((handler m b).dx ≡ m.dx +ℤ dx)
      × ((handler m b).dy ≡ m.dy +ℤ dy)
      × ((total (packets_of (xs ++ (b ∷ ys)))).0 ≡ dx +ℤ (total (packets_of (xs' ++ ys))).0)
      × ((total (packets_of (xs ++ (b ∷ ys)))).1 ≡ dy +ℤ (total (packets_of (xs' ++ ys))).1)
unfolding handler total
handler_step m b [] ys l h = elim (Bool-cases (bit b 3 == 1)) [
  | inl s ↦ (
    b ∷ [],
    pos 0,
    pos 0,
    (ground (arith, s), ground (arith, s), ground (arith, s)),
    ground (arith, +ℤ_zero m.dx),
    ground (arith, +ℤ_zero m.dy),
    zero_+ℤ _,
    zero_+ℤ _,
  )
  | inr s ↦ (
    [],
    pos 0,
    pos 0,
    ground (arith, s),
    ground (arith, +ℤ_zero m.dx),
    ground (arith, +ℤ_zero m.dy),
    ap (λ ps. (total ps).0) (packets_of-skip b ys s) ∙ zero_+ℤ _,
    ap (λ ps. (total ps).1) (packets_of-skip b ys s) ∙ zero_+ℤ _,
  )
]
handler_step m b (a ∷ []) ys l h = (
  a ∷ b ∷ [],
  pos 0,
  pos 0,
  (ground arith, ground arith, ground arith, h.2, l),
  ground (arith, +ℤ_zero m.dx),
  ground (arith, +ℤ_zero m.dy),
  zero_+ℤ _,
  zero_+ℤ _,
)
handler_step m c (a ∷ b ∷ []) ys l h = (
  [],
  movement (bit a 6) b,
  movement (bit a 7) c,
  ground arith,
  ground (arith, delta-movement a 6 b h.4),
  ground (arith, delta-movement a 7 c l),
  ap (λ ps. (total ps).0) (packets_of-here a b c ys h.3),
  ap (λ ps. (total ps).1) (packets_of-here a b c ys h.3),
)
handler_step m c (a ∷ b ∷ d ∷ xs) ys l h = absurd h

Begun-get_delta : (m : Mouse) (xs : List ℕ) → Begun m xs → Begun (get_delta m).0 xs
unfolding get_delta
Begun-get_delta m [] h = h
Begun-get_delta m (a ∷ []) h = h
Begun-get_delta m (a ∷ b ∷ []) h = h
Begun-get_delta m (a ∷ b ∷ c ∷ xs) h = h

total-Begun :
    (m : Mouse) (xs : List ℕ) → Begun m xs → total (packets_of (xs ++ [])) ≡ (pos 0, pos 0)
unfolding packets_of total
total-Begun m [] h = refl
total-Begun m (a ∷ []) h = refl
total-Begun m (a ∷ b ∷ []) h = refl
total-Begun m (a ∷ b ∷ c ∷ xs) h = absurd h

-- A step and the rest, on one axis.
axis_step : (g d d' e t t' r : ℤ) → r ≡ g +ℤ d' +ℤ t' → d' ≡ d +ℤ e → t ≡ e +ℤ t' → r ≡ g +ℤ d +ℤ t
axis_step g d d' e t t' r ih move rest =
    ih ∙ ap (λ v. g +ℤ v +ℤ t') move ∙ +ℤ_regroup g d e t' ∙ ap (λ v. g +ℤ d +ℤ v) (sym rest)

get_delta-sums :
    (m : Mouse)
    → ((get_delta m).1.dx ≡ m.dx)
      × ((get_delta m).0.dx ≡ pos 0)
      × ((get_delta m).1.dy ≡ m.dy)
      × ((get_delta m).0.dy ≡ pos 0)
unfolding get_delta
get_delta-sums m = (refl, refl, refl, refl)

read_axis : (g d s z t : ℤ) → d ≡ s → z ≡ pos 0 → g +ℤ d +ℤ z +ℤ t ≡ g +ℤ s +ℤ t
read_axis g d s z t e f =
    ap (λ v. g +ℤ v +ℤ z +ℤ t) e
    ∙ ap (λ v. g +ℤ s +ℤ v +ℤ t) f
    ∙ ap (λ v. v +ℤ t) (+ℤ_zero (g +ℤ s))

-- The packets of the stream are what the reads return and what is still pending, on both axes.
pub run_conserves :
    (es : List Event) (m : Mouse) (xs : List ℕ) (gx gy : ℤ)
    → Begun m xs
    → All (λ b. b < 256) (bytes es)
    → let (m', gx', gy') = run m gx gy es in
      let all = total (packets_of (xs ++ bytes es)) in
      (gx' +ℤ m'.dx ≡ gx +ℤ m.dx +ℤ all.0) × (gy' +ℤ m'.dy ≡ gy +ℤ m.dy +ℤ all.1)
unfolding run bytes
run_conserves [] m xs gx gy h l =
    let z = total-Begun m xs h in
    (
      sym (+ℤ_zero _) ∙ ap (λ (t : ℤ × ℤ). gx +ℤ m.dx +ℤ t.0) (sym z),
      sym (+ℤ_zero _) ∙ ap (λ (t : ℤ × ℤ). gy +ℤ m.dy +ℤ t.1) (sym z),
    )
run_conserves (byte b ∷ es) m xs gx gy h l =
    let (xs', dx, dy, h', ex, ey, tx, ty) = handler_step m b xs (bytes es) l.0 h in
    let ih = run_conserves es (handler m b) xs' gx gy h' l.1 in
    (axis_step gx m.dx _ dx _ _ _ ih.0 ex tx, axis_step gy m.dy _ dy _ _ _ ih.1 ey ty)
run_conserves (drain ∷ es) m xs gx gy h l =
    let m' = (get_delta m).0 in
    let d = (get_delta m).1 in
    let t = total (packets_of (xs ++ bytes es)) in
    let ih = run_conserves es m' xs (gx +ℤ d.dx) (gy +ℤ d.dy) (Begun-get_delta m xs h) l in
    let k = get_delta-sums m in
    (
      ih.0 ∙ read_axis gx d.dx m.dx m'.dx t.0 k.0 k.1,
      ih.1 ∙ read_axis gy d.dy m.dy m'.dy t.1 k.2 k.3,
    )
