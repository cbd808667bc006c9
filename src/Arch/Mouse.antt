-- ===== src/Arch/Mouse.antt =====
-- kernel/arch/x86_64/mouse.c: the packet assembly of mouse_handler, and mouse_get_delta. The `int32_t`
-- sums are integers here: they differ only past 2^24
-- packets between two reads, an overflow that C leaves undefined; Mouse/Range has the bound.
pub mod Packets
pub mod Stream
pub mod Range
mod Tests
use sol_os.Base.{ℕ, ◌+◌, ◌-◌, bit_and, Bool, ltb, ◌==◌, if◌then◌else◌, bit}
use sol_os.Base.Int.{ℤ, ◌+ℤ◌, pos, negsuc}

-- The module's static variables. `eois` counts the calls of `pic_send_eoi(12)`.
pub record Mouse : Type 0 where
  pub packet0 : ℕ
  pub packet1 : ℕ
  pub packet2 : ℕ
  pub cycle : ℕ
  pub dx : ℤ
  pub dy : ℤ
  pub buttons : ℕ
  pub events : ℕ
  pub packets : ℕ
  pub irqs : ℕ
  pub eois : ℕ

-- `(int8_t)b`
abbrev pub int8 : ℕ → ℤ
int8 b = if ltb b 128 then pos b else negsuc (255 - b)

-- The delta of a packet on one axis: 0 where the overflow bit `k` of the first byte is set.
abbrev pub delta : ℕ → ℕ → ℕ → ℤ
delta first k b = if bit first k == 1 then pos 0 else int8 b

unfoldable pub finish_packet : Mouse → ℕ → Mouse
finish_packet m byte = record m {
  packet2 = byte;
  cycle = 0;
  buttons = bit_and m.packet0 7;
  dx = m.dx +ℤ delta m.packet0 6 m.packet1;
  dy = m.dy +ℤ delta m.packet0 7 byte;
  events = m.events + 1;
  packets = m.packets + 1;
}

unfoldable pub send_eoi : Mouse → Mouse
send_eoi m = record m { eois = m.eois + 1 }

-- `mouse_handler`, on the byte that the data port gives. A byte that is dropped for its sync bit
-- returns before the acknowledgement.
unfoldable pub handler : Mouse → ℕ → Mouse
unfolding finish_packet send_eoi
handler m0 byte =
    let m = record m0 { irqs = m0.irqs + 1 } in
    if m.cycle == 0
    then if bit byte 3 == 1 then send_eoi (record m { packet0 = byte; cycle = 1 }) else m
    else if m.cycle == 1
    then send_eoi (record m { packet1 = byte; cycle = 2 })
    else send_eoi (finish_packet m byte)

pub record Delta : Type 0 where
  pub dx : ℤ
  pub dy : ℤ
  pub buttons : ℕ
  pub moved : Bool

-- `mouse_get_delta` empties the sums.
unfoldable pub get_delta : Mouse → Mouse × Delta
get_delta m = (
  record m { dx = pos 0; dy = pos 0; events = 0 },
  record { dx = m.dx; dy = m.dy; buttons = m.buttons; moved = ltb 0 m.events },
)
