-- ===== src/Mpmc.antt =====
-- src/mpmc: parts of the ring of many producers and many consumers.
pub mod ScanBudget
pub mod Lap
pub mod Watermark
pub mod Config
pub mod Done
