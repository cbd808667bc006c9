-- ===== src/Desktop.antt =====
-- kernel/desktop.c: the desktop.
pub mod Fs
pub mod Windows
pub mod Notepad
pub mod Terminal
pub mod Manager
