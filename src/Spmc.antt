-- ===== src/Spmc.antt =====
-- src/spmc: the ring of one producer and many consumers.
pub mod Ring
pub mod Producer
pub mod Consumer
pub mod Access
pub mod Ledger
pub mod Drop
pub mod Threads
