-- ===== src/Mpsc/Producer.antt =====
-- src/mpsc/producer.rs and src/mpsc/reservation_release.rs: the operations of one producer handle, with
-- no step of another thread inside them.
use quetzalcoatl.Common.{ℕ, zero, suc, Bool, true, false, not, Option, none, some}
use quetzalcoatl.Common.Tests.{leb, ◌==◌, if◌then◌else◌}
use quetzalcoatl.Common.Words.{add_usize, sub_usize}
use quetzalcoatl.Capacity
use quetzalcoatl.Sync.Cursors
use quetzalcoatl.Sync.CloseState
use quetzalcoatl.Sync.EndpointCount
use quetzalcoatl.Park.ParkRegistry
use quetzalcoatl.Spsc.Ring.{◌>>=◌}
use quetzalcoatl.Spsc.Producer.{PushResult, ok, err}
use quetzalcoatl.Mpsc.Ring.{
  RingBuffer, Producer, write_slot, publish_slot, tombstone_slot, take_slot, wake_consumer,
}

-- `SlotWriter` holds the position that it claimed; its references to the ring are the state.
pub record SlotWriter : Type 0 where
  pub pos : ℕ

-- `WrittenSlot`, with the flag of its `UncommittedSlot`.
pub record WrittenSlot : Type 0 where
  pub pos : ℕ
  pub armed : Bool

module _ {ℓ} {A : Type ℓ} where
  -- The test at the top of the loop of `claim_slot`, with the load of the head that it may make: is
  -- there room for the position `tail`?
  unfoldable pub check_room : ℕ → Producer → RingBuffer A → Bool × Producer
  check_room tail p r =
      let cap = Capacity.get r.capacity in
      if leb cap (sub_usize tail p.cached_head)
      then (let head = r.cursors.head in
          (not (leb cap (sub_usize tail head)), record p { cached_head = head }))
      else (true, p)

  -- The compare-and-swap of the tail, where it does not fail spuriously.
  unfoldable pub swap_tail : ℕ → RingBuffer A → Bool × RingBuffer A
  swap_tail tail r =
      if r.cursors.tail == tail
      then (true, record r { cursors = Cursors.publish_tail r.cursors (add_usize tail 1) })
      else (false, r)

  -- The loop of `claim_slot` from the tail that it loaded. The compare-and-swap is weak: `spurious` is
  -- the number of times that it fails for no reason. A tail moved by another thread, which no step of
  -- one thread alone can see, is `none`.
  unfoldable pub claim_loop :
      (spurious : ℕ) → ℕ → Producer → RingBuffer A → Option (Option ℕ × Producer × RingBuffer A)
  claim_loop zero tail p r =
      let (room, p') = check_room tail p r in
      let (won, r') = swap_tail tail r in
      if room then (if won then some (some tail, p', r') else none) else some (none, p', r)
  claim_loop (suc spurious) tail p r =
      let (room, p') = check_room tail p r in
      let retried = claim_loop spurious r.cursors.tail p' r in
      if room then retried else some (none, p', r)

  unfoldable pub claim_slot :
      (spurious : ℕ) → Producer → RingBuffer A → Option (Option ℕ × Producer × RingBuffer A)
  claim_slot spurious p r = claim_loop spurious r.cursors.tail p r

  -- The publication of a claimed position, and the wake.
  unfoldable pub publish : ℕ → RingBuffer A → Option (RingBuffer A)
  publish pos r = do r' ← publish_slot pos r; some (wake_consumer r')

  -- `ReservationRelease`, and the drop of a `SlotWriter`: the tombstone, and the wake.
  unfoldable pub abandon : ℕ → RingBuffer A → Option (RingBuffer A)
  abandon pos r = do r' ← tombstone_slot pos r; some (wake_consumer r')

  unfoldable pub push :
      (spurious : ℕ) → A → Producer → RingBuffer A → Option (PushResult A × Producer × RingBuffer A)
  push spurious v p r = do
    (claim, p', r₁) ← claim_slot spurious p r
    elim claim [
      | none ↦ some (err v, p', r₁)
      | some pos ↦ do r₂ ← write_slot pos v r₁; r₃ ← publish pos r₂; some (ok, p', r₃)
    ]

  unfoldable pub reserve :
      (spurious : ℕ)
      → Producer
      → RingBuffer A
      → Option (Option SlotWriter × Producer × RingBuffer A)
  reserve spurious p r = do
    (claim, p', r') ← claim_slot spurious p r
    elim claim [
      | none ↦ some (none, p', r')
      | some pos ↦ some (some (record { pos = pos }), p', r')
    ]

  -- `SlotWriter::write`.
  unfoldable pub write : SlotWriter → A → RingBuffer A → Option (WrittenSlot × RingBuffer A)
  write w v r = do r' ← write_slot w.pos v r; some (record { pos = w.pos; armed = true }, r')

  -- `SlotWriter::commit_unchecked`.
  unfoldable pub commit_unchecked : SlotWriter → RingBuffer A → Option (RingBuffer A)
  commit_unchecked w r = publish w.pos r

  -- `Drop for SlotWriter`.
  unfoldable pub drop_writer : SlotWriter → RingBuffer A → Option (RingBuffer A)
  drop_writer w r = abandon w.pos r

  -- `Drop for WrittenSlot`: the value is dropped while the guard is armed, and the tombstone follows,
  -- whether or not the destructor of the value returns. The value dropped, if any.
  unfoldable pub drop_written : WrittenSlot → RingBuffer A → Option (Option A × RingBuffer A)
  drop_written w r =
      if w.armed
      then (do (v, r₁) ← take_slot w.pos r; r₂ ← abandon w.pos r₁; some (some v, r₂))
      else some (none, r)

  -- `WrittenSlot::commit`: the guard is disarmed, the slot published, and the guard dropped.
  unfoldable pub commit : WrittenSlot → RingBuffer A → Option (RingBuffer A)
  commit w r = do
    r₁ ← publish w.pos r
    (dropped, r₂) ← drop_written (record w { armed = false }) r₁
    some r₂

  -- `Clone for Producer` and `new_producer`.
  unfoldable pub clone : RingBuffer A → Producer × RingBuffer A
  clone r =
      let (park_slot, producer_slots) = ParkRegistry.lease r.producer_slots in
      (
        record { cached_head = 0; park_slot = park_slot },
        record r {
          producer_count = EndpointCount.register r.producer_count;
          producer_slots = producer_slots;
        },
      )

  -- `Drop for Producer`.
  unfoldable pub drop_producer : Producer → RingBuffer A → RingBuffer A
  drop_producer p r =
      let (count, last) = EndpointCount.release r.producer_count in
      let r' = record r {
        producer_slots = ParkRegistry.release p.park_slot r.producer_slots;
        producer_count = count;
      } in
      if last then wake_consumer (record r' { closed = CloseState.close r'.closed }) else r'
