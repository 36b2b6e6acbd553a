-- ===== src/Wayland.antt =====
-- The input method on Wayland (crates/shinran_wayland).
pub mod Context
pub mod Seat
pub mod Registry
pub mod Tests
