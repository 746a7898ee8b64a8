-- ===== src/Slot.antt =====
-- The words that guard the slots of the rings with more than two endpoints.
pub mod Sequence
pub mod Done
pub mod Ready
pub mod State
