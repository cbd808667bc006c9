-- ===== src/Arch/Mouse/Range.antt =====
-- kernel/arch/x86_64/mouse.c: how large the sums of the movement can be.
use sol_os.Base.{ℕ, ◌+◌, ◌*◌, ◌≤◌, ◌<◌, ◌≡◌, List, [], ◌∷◌, ◌++◌, arith, length, All}
use sol_os.Base.Int.{ℤ, pos_part, neg_part, ◌+ℤ◌}
use sol_os.Arch.Mouse.{Mouse, handler, get_delta, delta}
use sol_os.Arch.Mouse.Stream.{
  Event, byte, drain, run, bytes, packets_of, total, Begun, run_conserves,
}

-- At most `k` away from 0.
abbrev pub Small : ℕ → ℤ → Type 0
Small k z = (pos_part z ≤ k) × (neg_part z ≤ k)

Small-add : (k : ℕ) (a d : ℤ) → Small k a → Small 128 d → Small (k + 128) (a +ℤ d)
unfolding ◌+ℤ◌
Small-add k a d h l = ground arith

Small-delta : (a k b : ℕ) → Small 128 (delta a k b)
Small-delta a k b = ground arith

Small-wider : (k l : ℕ) (z : ℤ) → k ≤ l → Small k z → Small l z
Small-wider k l z h s = (omega arith, omega arith)

handler-Small :
    (k : ℕ) (m : Mouse) (b : ℕ)
    → Small k m.dx
    → Small k m.dy
    → Small (k + 128) (handler m b).dx × Small (k + 128) (handler m b).dy
unfolding handler
handler-Small k m b x y =
    let p = Small-add k m.dx (delta m.packet0 6 m.packet1) x (Small-delta m.packet0 6 m.packet1) in
    let q = Small-add k m.dy (delta m.packet0 7 b) y (Small-delta m.packet0 7 b) in ground arith

-- An interrupt moves a sum by at most 128: the sums leave the range of `int32_t` only in a sequence of
-- more than 2^24 - 1 events from 0.
pub run-Small :
    (es : List Event) (m : Mouse) (gx gy : ℤ) (k : ℕ)
    → Small k m.dx
    → Small k m.dy
    → let m' = (run m gx gy es).0 in
      Small (k + 128 * length es) m'.dx × Small (k + 128 * length es) m'.dy
unfolding run get_delta
run-Small [] m gx gy k x y = (
  Small-wider k (k + 128 * 0) m.dx (omega arith) x,
  Small-wider k (k + 128 * 0) m.dy (omega arith) y,
)
run-Small (byte b ∷ es) m gx gy k x y =
    let h = handler-Small k m b x y in
    let r = run-Small es (handler m b) gx gy (k + 128) h.0 h.1 in
    ((omega (arith, r.0), omega (arith, r.0)), (omega (arith, r.1), omega (arith, r.1)))
run-Small (drain ∷ es) m gx gy k x y =
    let d = (get_delta m).1 in
    let r = run-Small es (get_delta m).0 (gx +ℤ d.dx) (gy +ℤ d.dy) 0 (omega arith) (omega arith) in
    ((omega (arith, r.0), omega (arith, r.0)), (omega (arith, r.1), omega (arith, r.1)))

-- No movement is lost, made up or counted twice on either axis, whenever the reads come: from a state
-- in which the driver has the first bytes `xs` of a packet, what the reads returned and what is
-- still pending add up to what was there and the movement of the packets that the stream of bytes
-- has, bytes out of step being skipped. And from sums of at most `k` the pending sums are at most
-- `k` and 128 for each event, so that those of fewer than 2^24 events from 0 fit `int32_t`.
pub movement_lem :
    (es : List Event) (m : Mouse) (xs : List ℕ) (gx gy : ℤ) (k : ℕ)
    → Begun m xs
    → All (λ b. b < 256) (bytes es)
    → Small k m.dx
    → Small k m.dy
    → let (m', gx', gy') = run m gx gy es in
      let all = total (packets_of (xs ++ bytes es)) in
      (gx' +ℤ m'.dx ≡ gx +ℤ m.dx +ℤ all.0)
      × (gy' +ℤ m'.dy ≡ gy +ℤ m.dy +ℤ all.1)
      × Small (k + 128 * length es) m'.dx
      × Small (k + 128 * length es) m'.dy
movement_lem es m xs gx gy k h l x y =
    let c = run_conserves es m xs gx gy h l in
    let r = run-Small es m gx gy k x y in (c.0, c.1, r.0, r.1)
