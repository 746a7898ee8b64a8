-- ===== src/Mpsc/Consumer.antt =====
-- src/mpsc/consumer.rs, src/mpsc/batch_release.rs and src/mpsc/slot_release.rs: the operations of the
-- consumer, with no step of another thread inside them. A destructor or a callback that panics is one
-- that answers `false`.
use quetzalcoatl.Common.{ℕ, zero, suc, Bool, true, false, Option, none, some, List, [], ◌∷◌}
use quetzalcoatl.Common.Tests.{◌==◌, if◌then◌else◌}
use quetzalcoatl.Common.Words.{add_usize}
use quetzalcoatl.Capacity
use quetzalcoatl.Sync.CloseState
use quetzalcoatl.Slot.Sequence.{SlotSnapshot, ready, tombstoned, not_ready, slot_classify}
use quetzalcoatl.Spsc.Ring.{◌>>=◌}
use quetzalcoatl.Spsc.Consumer.{Exit, emptied, at_limit, unwound}
use quetzalcoatl.Mpsc.Ring.{
  RingBuffer, slot, take_slot, release_slot, publish_head, wake_producer, wake_producers,
  flush_producers,
}

pub record SlotReader : Type 0 where
  pub head : ℕ

-- `BatchRelease`.
pub record BatchRelease : Type 0 where
  pub head : ℕ
  pub released : ℕ
  pub delivered : ℕ

abbrev pub batch_at : ℕ → BatchRelease
batch_at head = record { head = head; released = 0; delivered = 0 }

unfoldable pub skip : BatchRelease → BatchRelease
skip b = record b { head = add_usize b.head 1; released = add_usize b.released 1 }

unfoldable pub take : BatchRelease → BatchRelease
take b = record {
  head = add_usize b.head 1;
  released = add_usize b.released 1;
  delivered = add_usize b.delivered 1;
}

module _ {ℓ} {A : Type ℓ} where
  -- What the slot of a position says of it.
  unfoldable pub classify_at : ℕ → RingBuffer A → Option (SlotSnapshot (Option A))
  classify_at pos r = do s ← slot pos r; some (slot_classify s pos)

  -- `Drop for SlotRelease`, and the end of `pop` and of `release_tombstone`: the slot goes to the next
  -- lap, the head moves past it, and a producer is woken.
  unfoldable pub release : ℕ → RingBuffer A → Option (RingBuffer A)
  release head r = do
    r' ← release_slot head r
    some (wake_producer (publish_head (add_usize head 1) r'))

  unfoldable pub release_tombstone : ℕ → RingBuffer A → Option (RingBuffer A)
  release_tombstone head r = release head r

  -- The end of `pop` once the slot at `head` is known to be ready.
  unfoldable pub pop_ready : ℕ → RingBuffer A → Option (Option A × RingBuffer A)
  pop_ready head r = do (v, r₁) ← take_slot head r; r₂ ← release head r₁; some (some v, r₂)

  -- The loop of `pop`; `fuel` bounds its rounds, and `none` is also their lack.
  unfoldable pub pop_loop : (fuel : ℕ) → RingBuffer A → Option (Option A × RingBuffer A)
  pop_loop zero r = none
  pop_loop (suc fuel) r = do
    let head = r.cursors.head
    snapshot ← classify_at head r
    elim snapshot [
      | ready data_ ↦ pop_ready head r
      | tombstoned ↦ do r' ← release_tombstone head r; pop_loop fuel r'
      | not_ready ↦ some (none, r)
    ]

  -- One round more than the ring has slots.
  unfoldable pub pop : RingBuffer A → Option (Option A × RingBuffer A)
  pop r = pop_loop (suc (Capacity.get r.capacity)) r

  unfoldable pub ready_loop : (fuel : ℕ) → RingBuffer A → Option (Bool × RingBuffer A)
  ready_loop zero r = none
  ready_loop (suc fuel) r = do
    let head = r.cursors.head
    snapshot ← classify_at head r
    elim snapshot [
      | ready data_ ↦ some (true, r)
      | tombstoned ↦ do r' ← release_tombstone head r; ready_loop fuel r'
      | not_ready ↦ some (false, r)
    ]

  unfoldable pub ready_for_claim : RingBuffer A → Option (Bool × RingBuffer A)
  ready_for_claim r = ready_loop (suc (Capacity.get r.capacity)) r

  unfoldable pub pop_ref_loop :
      (fuel : ℕ) → RingBuffer A → Option (Option SlotReader × RingBuffer A)
  pop_ref_loop zero r = none
  pop_ref_loop (suc fuel) r = do
    let head = r.cursors.head
    snapshot ← classify_at head r
    elim snapshot [
      | ready data_ ↦ some (some (record { head = head }), r)
      | tombstoned ↦ do r' ← release_tombstone head r; pop_ref_loop fuel r'
      | not_ready ↦ some (none, r)
    ]

  unfoldable pub pop_ref : RingBuffer A → Option (Option SlotReader × RingBuffer A)
  pop_ref r = pop_ref_loop (suc (Capacity.get r.capacity)) r

  -- `Drop for SlotReader`: the release follows the destructor of the value, whether or not that returns.
  unfoldable pub drop_reader : SlotReader → RingBuffer A → Option (A × RingBuffer A)
  drop_reader reader r = do
    (v, r₁) ← take_slot reader.head r
    r₂ ← release reader.head r₁
    some (v, r₂)

  -- `Drop for BatchRelease`.
  unfoldable pub drop_batch : BatchRelease → RingBuffer A → RingBuffer A
  drop_batch b r = if b.released == 0 then r else wake_producers b.released (publish_head b.head r)

  -- `while self.pop().is_some() {}`: the values dropped, in order, and how the loop ends.
  unfoldable pub drop_items :
      (fuel : ℕ) → (A → Bool) → RingBuffer A → Option (List A × Exit × RingBuffer A)
  drop_items zero returns r = some ([], at_limit, r)
  drop_items (suc fuel) returns r = do
    (popped, r') ← pop r
    elim popped [
      | none ↦ some ([], emptied, r')
      | some v ↦
          if returns v
          then (do (vs, exit, r'') ← drop_items fuel returns r'; some (v ∷ vs, exit, r''))
          else some (v ∷ [], unwound, r')
    ]

  -- `Drop for Consumer`: the close and the wake of every producer come before the loop.
  unfoldable pub drop_consumer : (A → Bool) → RingBuffer A → Option (List A × Exit × RingBuffer A)
  drop_consumer returns r =
      drop_items (suc (Capacity.get r.capacity)) returns
        (flush_producers (record r { consumer_closed = CloseState.close r.consumer_closed }))

-- What a drain leaves: the callback's state, how the loop ended, the batch, and the ring.
pub record Drain {ℓ κ} (A : Type ℓ) (S : Type κ) : Type (ℓ ⊔ κ) where
  pub state : S
  pub exit : Exit
  pub batch : BatchRelease
  pub ring : RingBuffer A

module _ {ℓ κ} {A : Type ℓ} {S : Type κ} (f : S → A → S × Bool) where
  -- The loop of `drain` and `drain_up_to`: `limit` is the number of values still to deliver, `fuel` the
  -- number of positions that it may pass.
  unfoldable pub drain_loop :
      (fuel : ℕ) → (limit : ℕ) → S → BatchRelease → RingBuffer A → Option (Drain A S)
  drain_loop zero limit st b r = none
  drain_loop (suc fuel) zero st b r =
      some (record { state = st; exit = at_limit; batch = b; ring = r })
  drain_loop (suc fuel) (suc limit) st b r = do
    snapshot ← classify_at b.head r
    elim snapshot [
      | ready data_ ↦ do
        (v, r₁) ← take_slot b.head r
        r₂ ← release_slot b.head r₁
        let st' = (f st v).0
        let rest = drain_loop fuel limit st' (take b) r₂
        if (f st v).1
            then rest
            else some (record { state = st'; exit = unwound; batch = take b; ring = r₂ })
      | tombstoned ↦ do r₁ ← release_slot b.head r; drain_loop fuel (suc limit) st (skip b) r₁
      | not_ready ↦ some (record { state = st; exit = emptied; batch = b; ring = r })
    ]

  -- The batch is dropped last, on the normal path and while unwinding.
  unfoldable pub drain_up_to : ℕ → S → RingBuffer A → Option (Drain A S)
  drain_up_to limit st r = do
    d ← drain_loop (suc (Capacity.get r.capacity)) limit st (batch_at r.cursors.head) r
    some (record d { ring = drop_batch d.batch d.ring })

  -- `drain` has no limit; one more than the ring has slots is enough.
  unfoldable pub drain : S → RingBuffer A → Option (Drain A S)
  drain st r = drain_up_to (suc (Capacity.get r.capacity)) st r
