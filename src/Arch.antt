-- ===== src/Arch.antt =====
-- kernel/arch/x86_64: the PS/2 keyboard and mouse interrupt handlers, and the clock chip.
pub mod Keyboard
pub mod Mouse
pub mod Rtc
