-- ===== src/Krtl.antt =====
-- The kernel's run-time library, Kernel/Source/KRTL: a memory is a function from addresses to bytes.
pub mod Mem
pub mod Text
