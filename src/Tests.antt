-- ===== src/Tests.antt =====
-- The theorems at concrete inputs.
pub mod Sync
pub mod Park
pub mod Spsc
pub mod Mpsc
pub mod Slots
pub mod Spmc
pub mod Broadcast
pub mod Mpmc
