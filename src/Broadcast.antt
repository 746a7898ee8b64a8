-- ===== src/Broadcast.antt =====
-- src/broadcast: the ring whose every consumer sees every value.
pub mod Floor
pub mod Registry
pub mod Ring
pub mod Producer
pub mod Consumer
pub mod Log
pub mod Pop
pub mod Claim
pub mod Rewrite
pub mod Push
