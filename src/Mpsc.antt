-- ===== src/Mpsc.antt =====
-- src/mpsc: the ring of many producers and one consumer.
pub mod Ring
pub mod Producer
pub mod Consumer
pub mod Room
pub mod Board
pub mod Access
pub mod Repr
pub mod Pop
pub mod Push
pub mod Drain
pub mod Drop
pub mod Threads
