-- ===== src/Arch/Mouse/Packets.antt =====
-- kernel/arch/x86_64/mouse.c: packets and acknowledgements.
use sol_os.Base.{
  ℕ, ◌+◌, bit_and, ◌≡◌, ◌⊎◌, inl, inr, Bool, true, false, ◌&&◌, not, arith, ◌==◌, Bool-cases, bit,
}
use sol_os.Base.Int.{◌+ℤ◌}
use sol_os.Arch.Mouse.{Mouse, handler, delta}

-- A byte that starts a packet without the sync bit.
abbrev pub dropped : Mouse → ℕ → Bool
dropped m byte = (m.cycle == 0) && not (bit byte 3 == 1)

-- The handler acknowledges the interrupt, except for a byte that it drops: then the controller
-- gets no end-of-interrupt, and nothing but the interrupt count changes.
pub handler_eoi :
    (m : Mouse) (byte : ℕ)
    → ((dropped m byte ≡ true) × (handler m byte ≡ record m { irqs = m.irqs + 1 }))
      ⊎ ((dropped m byte ≡ false) × ((handler m byte).eois ≡ m.eois + 1))
unfolding handler
handler_eoi m byte = elim (Bool-cases (dropped m byte)) [
  | inl d ↦ inl (d, ground arith)
  | inr d ↦ inr (d, ground arith)
]

-- Three bytes that start with a synchronised one make one packet: it moves the sums by its deltas,
-- sets the buttons, and leaves the assembly ready for the next.
pub handler_packet :
    (m : Mouse) (b0 b1 b2 : ℕ)
    → m.cycle ≡ 0
    → bit b0 3 ≡ 1
    → let m' = handler (handler (handler m b0) b1) b2 in
      (m'.cycle ≡ 0)
      × (m'.dx ≡ m.dx +ℤ delta b0 6 b1)
      × (m'.dy ≡ m.dy +ℤ delta b0 7 b2)
      × (m'.buttons ≡ bit_and b0 7)
      × (m'.events ≡ m.events + 1)
      × (m'.packets ≡ m.packets + 1)
unfolding handler
handler_packet m b0 b1 b2 z s = ground arith
