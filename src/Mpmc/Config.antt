-- ===== src/Mpmc/Config.antt =====
-- src/mpmc/config.rs: the constants that tune the batches and the scan. The bounds that the source checks
-- when it is compiled are a test.
use quetzalcoatl.Common.{ℕ, Bool, ◌&&◌}
use quetzalcoatl.Common.Tests.{leb}

pub record Config : Type 0 where
  pub producer_batch : ℕ
  pub cas_fail_skip : ℕ
  pub consumed_flush : ℕ

abbrev pub default_config : Config
default_config = record { producer_batch = 32; cas_fail_skip = 128; consumed_flush = 64 }

unfoldable pub validate : Config → Bool
validate c =
    leb 1 c.producer_batch
    && leb c.producer_batch 32
    && leb 1 c.cas_fail_skip
    && leb 1 c.consumed_flush
