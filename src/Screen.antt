-- ===== src/Screen.antt =====
-- The back buffer of kernel/desktop.c: clipping, filling and the damage of a frame.
pub mod Clip
pub mod Fill
pub mod Damage
pub mod Present
mod Tests
