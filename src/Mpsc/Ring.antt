-- ===== src/Mpsc/Ring.antt =====
-- src/mpsc/mod.rs: the ring that the producers and the consumer share, and its slots. The value of a
-- slot is `some v` while it is initialized and has not been moved out. A step that would be undefined
-- behaviour in the source (a read of a slot with no value, an access past the buffer) is `none`.
use quetzalcoatl.Common.{ℕ, zero, suc, Bool, Option, none, some, List, [], ◌∷◌, ◌++◌}
use quetzalcoatl.Common.Lists.{get_elem?, set}
use quetzalcoatl.Capacity
use quetzalcoatl.Capacity.{Capacity}
use quetzalcoatl.Sync.Cursors
use quetzalcoatl.Sync.Cursors.{Cursors}
use quetzalcoatl.Sync.CloseState
use quetzalcoatl.Sync.CloseState.{CloseState}
use quetzalcoatl.Sync.EndpointCount
use quetzalcoatl.Sync.EndpointCount.{EndpointCount}
use quetzalcoatl.Common.Tests.{if◌then◌else◌}
use quetzalcoatl.Spsc.Consumer.{Exit, emptied, unwound}
use quetzalcoatl.Park.ThreadParker.{Thread}
use quetzalcoatl.Park.SoleParker
use quetzalcoatl.Park.SoleParker.{SoleParker}
use quetzalcoatl.Park.ParkRegistry
use quetzalcoatl.Park.ParkRegistry.{ParkRegistry, ParkSlot}
use quetzalcoatl.Park.WakeSet
use quetzalcoatl.Park.WakeSet.{WakeSet, as_list}
use quetzalcoatl.Slot.Sequence
use quetzalcoatl.Slot.Sequence.{SeqSlot, SlotSequence, slot_free_at, drop_value_at}
use quetzalcoatl.Spsc.Ring.{◌>>=◌}

-- `RingBuffer<T>`, without the wakers of the feature `async`. `unparked` is no field of the source:
-- it records the threads that were unparked, the latest last.
pub record RingBuffer {ℓ} (A : Type ℓ) : Type ℓ where
  pub buf : List (SeqSlot A)
  pub capacity : Capacity
  pub cursors : Cursors
  pub producer_count : EndpointCount
  pub closed : CloseState
  pub consumer_closed : CloseState
  pub producer_park : WakeSet
  pub producer_slots : ParkRegistry
  pub consumer_park : SoleParker
  pub unparked : List Thread

-- `Producer`, without its reference to the ring.
pub record Producer : Type 0 where
  pub cached_head : ℕ
  pub park_slot : ParkSlot

module _ {ℓ} {A : Type ℓ} where
  -- `n` slots, free at the positions from `pos` on.
  unfoldable pub slots_from : (pos : ℕ) → (n : ℕ) → List (SeqSlot A)
  slots_from pos zero = []
  slots_from pos (suc n) = slot_free_at pos ∷ slots_from (suc pos) n

  unfoldable pub new : Capacity → RingBuffer A
  new capacity = record {
    buf = slots_from 0 (Capacity.get capacity);
    capacity = capacity;
    cursors = Cursors.fresh;
    producer_count = EndpointCount.fresh;
    closed = CloseState.fresh;
    consumer_closed = CloseState.fresh;
    producer_park = WakeSet.fresh;
    producer_slots = ParkRegistry.fresh;
    consumer_park = SoleParker.fresh;
    unparked = [];
  }

  -- `split` and `split_borrowed`: the ring, and the producer with the park slot that it leases.
  unfoldable pub split : RingBuffer A → Producer × RingBuffer A
  split r =
      let (park_slot, producer_slots) = ParkRegistry.lease r.producer_slots in
      (
        record { cached_head = 0; park_slot = park_slot },
        record r { producer_slots = producer_slots },
      )

  unfoldable pub slot : ℕ → RingBuffer A → Option (SeqSlot A)
  slot pos r = get_elem? r.buf (Capacity.index_of r.capacity pos)

  -- One access to the slot of a position.
  unfoldable pub update_slot : ℕ → (SeqSlot A → SeqSlot A) → RingBuffer A → Option (RingBuffer A)
  update_slot pos f r = do
    s ← slot pos r
    some (record r { buf = set r.buf (Capacity.index_of r.capacity pos) (f s) })

  -- `(*data_ptr).write(val)`.
  abbrev pub store : A → SeqSlot A → SeqSlot A
  store v s = record s { storage = some v }

  abbrev pub on_sequence : (SlotSequence → SlotSequence) → SeqSlot A → SeqSlot A
  on_sequence f s = record s { sequence = f s.sequence }

  unfoldable pub write_slot : ℕ → A → RingBuffer A → Option (RingBuffer A)
  write_slot pos v r = update_slot pos (store v) r

  unfoldable pub publish_slot : ℕ → RingBuffer A → Option (RingBuffer A)
  publish_slot pos r = update_slot pos (on_sequence (Sequence.publish pos)) r

  unfoldable pub tombstone_slot : ℕ → RingBuffer A → Option (RingBuffer A)
  tombstone_slot pos r = update_slot pos (on_sequence Sequence.tombstone) r

  unfoldable pub release_slot : ℕ → RingBuffer A → Option (RingBuffer A)
  release_slot head r = update_slot head (on_sequence (Sequence.release head r.capacity)) r

  -- `assume_init_read`, or a drop in place: the value leaves the slot.
  unfoldable pub take_slot : ℕ → RingBuffer A → Option (A × RingBuffer A)
  take_slot pos r = do
    s ← slot pos r
    v ← s.storage
    r' ← update_slot pos (λ s. record s { storage = none }) r
    some (v, r')

  unfoldable pub wake_consumer : RingBuffer A → RingBuffer A
  wake_consumer r =
      let (park, thread) = SoleParker.wake r.consumer_park in
      record r { consumer_park = park; unparked = r.unparked ++ as_list thread }

  -- `producer_park.wake_one_published()`.
  unfoldable pub wake_producer : RingBuffer A → RingBuffer A
  wake_producer r =
      let (park, threads) = WakeSet.wake_one_published r.producer_park in
      record r { producer_park = park; unparked = r.unparked ++ threads }

  -- `producer_park.wake_n(n)`.
  unfoldable pub wake_producers : ℕ → RingBuffer A → RingBuffer A
  wake_producers n r =
      let (park, threads) = WakeSet.wake_n n r.producer_park in
      record r { producer_park = park; unparked = r.unparked ++ threads }

  unfoldable pub flush_producers : RingBuffer A → RingBuffer A
  flush_producers r =
      let (park, threads) = WakeSet.flush r.producer_park in
      record r { producer_park = park; unparked = r.unparked ++ threads }

  unfoldable pub publish_head : ℕ → RingBuffer A → RingBuffer A
  publish_head head r = record r { cursors = Cursors.publish_head r.cursors head }

  unfoldable pub len : RingBuffer A → ℕ
  len r = Cursors.len r.cursors

  unfoldable pub is_empty : RingBuffer A → Bool
  is_empty r = Cursors.is_empty r.cursors

  unfoldable pub is_full : RingBuffer A → Bool
  is_full r = Cursors.is_full r.cursors (Capacity.get r.capacity)

  unfoldable pub close : RingBuffer A → RingBuffer A
  close r = wake_consumer (record r { closed = CloseState.close r.closed })

  -- `drop_value_at` at each position in turn, up to a panic: the values whose
  -- destructors ran, in that order, and how the loop ended.
  unfoldable pub drop_positions :
      (A → Bool) → List ℕ → RingBuffer A → Option (List A × Exit × RingBuffer A)
  drop_positions returns [] r = some ([], emptied, r)
  drop_positions returns (pos ∷ rest) r = do
    s ← slot pos r
    (dropped, s') ← drop_value_at s pos
    r' ← update_slot pos (λ s. s') r
    elim dropped [
      | none ↦ drop_positions returns rest r'
      | some v ↦
          if returns v
          then (do (vs, exit, r'') ← drop_positions returns rest r'; some (v ∷ vs, exit, r''))
          else some (v ∷ [], unwound, r')
    ]

  -- `Drop for RingBuffer<T>`: a destructor that panics leaves the later values undropped.
  unfoldable pub drop_ring : (A → Bool) → RingBuffer A → Option (List A × Exit × RingBuffer A)
  drop_ring returns r = drop_positions returns (Cursors.occupied r.cursors) r
