-- ===== src/Broadcast/Consumer.antt =====
-- src/broadcast/consumer.rs and head_advance.rs: the operations of one consumer handle, with no step of
-- another thread inside them, without the feature `async`.
use quetzalcoatl.Common.{ℕ, zero, suc, Bool, Option, none, some}
use quetzalcoatl.Common.Tests.{leb, ◌==◌}
use quetzalcoatl.Common.Words.{sub_usize}
use quetzalcoatl.Capacity
use quetzalcoatl.Slot.Sequence.{SlotSnapshot, ready, tombstoned, not_ready}
use quetzalcoatl.Spsc.Ring.{◌>>=◌}
use quetzalcoatl.Broadcast.Registry
use quetzalcoatl.Broadcast.Ring.{
  RingBuffer, Consumer, slot, slot_classify, wake_producer, flush_producers,
}

pub record SlotReader : Type 0 where
  pub head : ℕ

-- How a `pop` ends: by a return, or by a panic of `T::clone`.
pub data Popped {ℓ} (A : Type ℓ) : Type ℓ where
  returned : Option A → Popped A
  unwound : Popped A

module _ {ℓ} {A : Type ℓ} where
  -- The end of a `pop` that has found a value, from its clone.
  abbrev pub cloned : Option A → Popped A
  cloned none = unwound
  cloned (some v) = returned (some v)

  -- `Clone for Consumer`: a panic of the registry is `none`.
  unfoldable pub clone : RingBuffer A → Option (Consumer × RingBuffer A)
  clone r = do
    (slot_index, consumers) ← Registry.subscribe_at r.tail r.consumers
    some (record { slot_index = slot_index }, record r { consumers = consumers })

  unfoldable pub drop_consumer : Consumer → RingBuffer A → Option (RingBuffer A)
  drop_consumer c r = do
    consumers ← Registry.unsubscribe c.slot_index r.consumers
    some (flush_producers (record r { consumers = consumers }))

  -- `advance_head`, and `Drop for HeadAdvance`.
  unfoldable pub advance_head : ℕ → Consumer → RingBuffer A → Option (RingBuffer A)
  advance_head head c r = do
    consumers ← Registry.publish_head_past c.slot_index head r.consumers
    some (wake_producer (record r { consumers = consumers }))

  unfoldable pub head_at : Consumer → RingBuffer A → Option ℕ
  head_at c r = Registry.head_of c.slot_index r.consumers

  unfoldable pub classify_at : ℕ → RingBuffer A → Option (SlotSnapshot (Option A))
  classify_at pos r = do s ← slot pos r; some (slot_classify s pos)

  -- The loop that `pop` and `pop_ref` share: past the positions given up, to a position that holds a
  -- value, or to none.
  unfoldable pub seek :
      (fuel : ℕ) → Consumer → RingBuffer A → Option (Option (ℕ × A) × RingBuffer A)
  seek zero c r = none
  seek (suc fuel) c r = do
    head ← head_at c r
    snapshot ← classify_at head r
    elim snapshot [
      | ready held ↦ do v ← held; some (some (head, v), r)
      | tombstoned ↦ do r' ← advance_head head c r; seek fuel c r'
      | not_ready ↦ some (none, r)
    ]

  -- One round more than the ring has slots.
  unfoldable pub seek_value : Consumer → RingBuffer A → Option (Option (ℕ × A) × RingBuffer A)
  seek_value c r = seek (suc (Capacity.get r.capacity)) c r

  -- `pop`, given the clone of each value, with none where `T::clone` panics: the clone is taken, then
  -- `HeadAdvance` publishes the head past the position, in a return and in a panic.
  unfoldable pub pop : (A → Option A) → Consumer → RingBuffer A → Option (Popped A × RingBuffer A)
  pop clone_of c r = do
    (found, r₁) ← seek_value c r
    elim found [
      | none ↦ some (returned none, r₁)
      | some item ↦ do r₂ ← advance_head item.0 c r₁; some (cloned (clone_of item.1), r₂)
    ]

  unfoldable pub pop_ref : Consumer → RingBuffer A → Option (Option SlotReader × RingBuffer A)
  pop_ref c r = do
    (found, r') ← seek_value c r
    some (elim found [ none ↦ none | some item ↦ some (record { head = item.0 }) ], r')

  -- `Drop for SlotReader`.
  unfoldable pub drop_reader : SlotReader → Consumer → RingBuffer A → Option (RingBuffer A)
  drop_reader reader c r = advance_head reader.head c r

  unfoldable pub len : Consumer → RingBuffer A → Option ℕ
  len c r = do head ← head_at c r; some (sub_usize r.tail head)

  unfoldable pub is_empty : Consumer → RingBuffer A → Option Bool
  is_empty c r = do n ← len c r; some (n == 0)

  unfoldable pub is_full : Consumer → RingBuffer A → Option Bool
  is_full c r = do n ← len c r; some (leb (Capacity.get r.capacity) n)
