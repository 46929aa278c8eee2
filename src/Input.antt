-- ===== src/Input.antt =====
-- The keyboard and the mouse: the controller of source/hw/i8042.c, its key tables, and what it sends.
pub mod Controller
pub mod Init
pub mod Keyboard
pub mod Keymap
pub mod Scan
pub mod Send
mod Tests
