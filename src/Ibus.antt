-- ===== src/Ibus.antt =====
-- The input method on IBus: its tables of candidates (crates/ibus_utils) and its engine
-- (crates/shinran_ibus).
pub mod LookupTable
pub mod Bytes
pub mod Address
pub mod Engine
pub mod Tests
