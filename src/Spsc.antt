-- ===== src/Spsc.antt =====
-- src/spsc: the single-producer, single-consumer ring.
pub mod Ring
pub mod Producer
pub mod Consumer
pub mod RingDrop
pub mod Queue
pub mod Repr
pub mod Claim
pub mod Push
pub mod Reserve
pub mod Pop
pub mod Drain
pub mod Reader
pub mod Gate
pub mod Drop
pub mod Frame
pub mod Run
pub mod Threads
