-- ===== src/Arch/Mouse/Tests.antt =====
-- kernel/arch/x86_64/mouse.c on one packet.
use sol_os.Base.{◌+◌, ◌*◌, ◌≡◌, refl, true, [], ◌∷◌, ◌++◌, arith}
use sol_os.Base.Int.{◌+ℤ◌, pos, negsuc}
use sol_os.Arch.Mouse.{Mouse, handler, get_delta}
use sol_os.Arch.Mouse.Range.{Small, movement_lem}
use sol_os.Arch.Mouse.Stream.{byte, drain, run, total, packets_of, bytes}

abbrev fresh : Mouse
fresh = record {
  packet0 = 0;
  packet1 = 0;
  packet2 = 0;
  cycle = 0;
  dx = pos 0;
  dy = pos 0;
  buttons = 0;
  events = 0;
  packets = 0;
  irqs = 0;
  eois = 0;
}

-- Left button, 5 to the right, 3 the other way; the first byte is out of step.
drained :
    (get_delta (run fresh (pos 0) (pos 0) (byte 1 ∷ byte 9 ∷ byte 5 ∷ byte 253 ∷ [])).0).1
    ≡ record { dx = pos 5; dy = negsuc 2; buttons = 1; moved = true }
unfolding run handler get_delta ◌+ℤ◌
drained = refl

movement_lem_example :
    let es = byte 9 ∷ byte 5 ∷ byte 253 ∷ drain ∷ [] in
    let (m', gx', gy') = run fresh (pos 0) (pos 0) es in
    let all = total (packets_of ([] ++ bytes es)) in
    (gx' +ℤ m'.dx ≡ pos 0 +ℤ pos 0 +ℤ all.0)
    × (gy' +ℤ m'.dy ≡ pos 0 +ℤ pos 0 +ℤ all.1)
    × Small (0 + 128 * 4) m'.dx
    × Small (0 + 128 * 4) m'.dy
unfolding bytes
movement_lem_example =
    movement_lem (byte 9 ∷ byte 5 ∷ byte 253 ∷ drain ∷ []) fresh [] (pos 0) (pos 0) 0 refl
      (omega arith, (omega arith, (omega arith, tt))) (omega arith) (omega arith)
