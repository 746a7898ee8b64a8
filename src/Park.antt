-- ===== src/Park.antt =====
-- Parking and waking: src/common/thread_parker.rs, sole_parker.rs and single_parker.rs. `std::thread::park`
-- and `unpark` are the standard library's: a wake returns the thread that it unparks.
pub mod ThreadParker
pub mod SoleParker
pub mod ParkRegistry
pub mod WakeSet
pub mod Blocking
