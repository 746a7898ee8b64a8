-- ===== src/Lib.antt =====
-- Verification library of quetzalcoatl, a Rust crate of lock-free ring buffers.
--
-- The crate has one ring for each shape of sharing (spsc, mpsc, spmc, mpmc, broadcast) over common
-- parts: the capacity with its mask, the pair of cursors, the counts and flags of the endpoints, the
-- backoff and the parking of threads. Here stand the common parts, the spsc, mpsc, spmc and broadcast
-- rings, and parts of the mpmc ring.
--
--   Capacity        src/capacity.rs: `exact`, `at_least` (a panic is none), `get`, `index_of`, `wrap`
--   Sync            src/common: cursors.rs, close_state.rs, endpoint_count.rs, backoff.rs
--   Park            src/common: thread_parker.rs, sole_parker.rs
--   Park.Blocking   src/common/single_parker.rs: `pop_block` against a peer that publishes, wakes and closes,
--                   step by step; a queue of items stands for what `try_pop` sees, and items may be
--                   published after the close, as src/spsc/mod.rs says of `RingBuffer::close`
--   Park.ParkRegistry  src/common/park_registry.rs: the leases of the park slots
--   Park.WakeSet    src/common/park.rs, park_overflow.rs and wake_interest.rs: the park state of a side with
--                   many waiters
--   Spsc.Ring       src/spsc/mod.rs: `RingBuffer`, `new`, `split`, the observers; Spsc.RingDrop has
--                   the destructor
--   Spsc.Producer   src/spsc/producer.rs: `push`, `reserve`, the guards `SlotWriter` and `WrittenSlot`
--                   (the latter with the flag of src/common/uncommitted_slot.rs)
--   Spsc.Consumer   src/spsc/consumer.rs, head_publisher.rs, consumer_close.rs: `pop`, `drain`,
--                   `drain_up_to`, `pop_ref`, `SlotReader`, the destructor
--   Spsc.Queue      the abstract bounded queue, and Spsc.Repr the relation between it and the ring
--   Spsc.Threads    `push` and `pop` cut at their accesses to shared memory, in any interleaving
--   Mpsc.Ring       src/mpsc/mod.rs: `RingBuffer`, its construction, wakes, observers and destructor
--   Mpsc.Producer   src/mpsc/producer.rs, reservation_release.rs: `claim_slot`, `push`, `reserve`, guards
--   Mpsc.Consumer   src/mpsc/consumer.rs, batch_release.rs, slot_release.rs: `pop`, `pop_ref`, `drain`
--   Mpsc.Board      what becomes of each position, and what its slot then holds
--   Mpsc.Repr       a ring whose other threads stand still; Mpsc.Push, Mpsc.Pop, Mpsc.Drain and Mpsc.Drop
--                   treat the operations on such a ring, Mpsc.Room the test for room by itself
--   Mpsc.Threads    `push`, reservations and `pop` cut at their accesses to shared memory, for any number
--                   of handles, in any interleaving
--   Spmc.Ring       src/spmc/mod.rs: `RingBuffer`, its construction, wakes, observers and destructor
--   Spmc.Producer   src/spmc/producer.rs: `push`, `reserve`, guards
--   Spmc.Consumer   src/spmc/consumer.rs, slot_release.rs, drain_wake.rs, consumer_close.rs: the claim of a
--                   batch, `pop`, `pop_ref`, `drain`, `clone`, the destructor; Spmc.Drop treats the latter
--   Spmc.Ledger     what becomes of each position, and what its slot then holds
--   Spmc.Threads    `push`, reservations and `pop` cut at their accesses to shared memory, for any number
--                   of consumer handles, in any interleaving
--   Broadcast.Floor     src/broadcast/consumer_floor.rs, floor_cache.rs: the floor of the consumers, its caches
--   Broadcast.Registry  src/broadcast/consumer_registry.rs: the seats of the consumers
--   Broadcast.Ring      src/broadcast/mod.rs, slot_reuse.rs: `RingBuffer`, its observers and destructor
--   Broadcast.Producer  src/broadcast/producer.rs, reservation_abandon.rs: `claim_slot`, `push`, `reserve`,
--                       guards; Broadcast.Claim, Rewrite and Push treat a push while the others stand still
--   Broadcast.Consumer  src/broadcast/consumer.rs, head_advance.rs: `pop`, `pop_ref`; Broadcast.Log says what
--                       the slots hold, Broadcast.Pop treats `pop`
--   Mpmc            src/mpmc: scan_budget.rs (with the lap of `Consumer::claim_slot` that claims nothing),
--                   consumed_watermark.rs, done_word.rs, config.rs
--   Slot            the words that guard the slots: src/common/slot_sequence.rs and seq_slot.rs (mpsc),
--                   src/spmc/done_word.rs, src/mpmc/ready_word.rs and
--                   src/broadcast/slot_state.rs
--   Common          Boolean tests, lists with native indices, `usize` words, masks
--   Tests           the theorems at concrete inputs
--
-- A slot of the buffer is `some v` while it holds an initialized value that was not moved out. What
-- would be undefined behaviour in the source (reading a slot without a value, an index past the
-- buffer) is `none`, so a theorem that an operation returns `some` says that it is defined. A `usize`
-- has 64 bits; sums and differences of positions wrap, as in a build without overflow checks. A
-- callback or a destructor that panics is one that returns `false` beside its state, and a clone that
-- panics is none. The loops of
-- `drain`, of `pop` and of the consumer's destructor have fuel of one round more than the ring has
-- slots (the spmc `drain` of two more), the wakes of a park set one of one round more than the set has
-- bits, the lap of an mpmc scan twice the slots. Memory orderings are not modelled: every access to a
-- shared cell is one step of a total order.
--
-- The mpsc ring is treated for positions below 2^63, as its sequence words require; the interleavings
-- bound the number of their steps accordingly. An mpsc thread steps once per shared access, the wakes of
-- the other side being part of the step that publishes. The interleavings of the spmc ring are treated in
-- the same way.
--
-- Not modelled: `push_block`, `pop_ref_block`, `reserve_block` and `drain_block`, whose loops have the
-- shape of `pop_block`; the futures and wakers of the feature `async`, which need an executor; the
-- mpmc ring beyond its slot words, its scan and its watermark; the interleavings of the threads of a
-- broadcast ring, whose calls stand here as wholes, and its variant over `Arc` in src/broadcast/arc.rs;
-- allocation and padding; the models for loom, the examples and the benchmarks.
pub mod Common
pub mod Capacity
pub mod Sync
pub mod Park
pub mod Slot
pub mod Spsc
pub mod Mpsc
pub mod Spmc
pub mod Mpmc
pub mod Broadcast
pub mod Tests
