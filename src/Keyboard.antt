-- ===== src/Keyboard.antt =====
-- The PS/2 keyboard: tables, the interrupt handler, and the event queue that it feeds.
pub mod Codes
pub mod Tables
pub mod Names
pub mod Hub
pub mod Handler
