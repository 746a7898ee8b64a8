-- ===== src/Spmc/Ring.antt =====
-- src/spmc/mod.rs: the ring that the producer and the consumers share. A slot is `some v` while it holds
-- an initialized value that has not been moved out. A step that would be undefined behaviour in the
-- source (a read of a slot with no value, an access past the buffer) is `none`.
use quetzalcoatl.Common.{ℕ, zero, suc, Bool, true, false, Option, none, some, List, [], ◌∷◌, ◌++◌}
use quetzalcoatl.Common.Lists.{get_elem?, set, replicate}
use quetzalcoatl.Capacity
use quetzalcoatl.Capacity.{Capacity}
use quetzalcoatl.Sync.Cursors
use quetzalcoatl.Sync.Cursors.{Cursors}
use quetzalcoatl.Sync.CloseState
use quetzalcoatl.Sync.CloseState.{CloseState}
use quetzalcoatl.Sync.EndpointCount
use quetzalcoatl.Sync.EndpointCount.{EndpointCount}
use quetzalcoatl.Common.Tests.{if◌then◌else◌}
use quetzalcoatl.Spsc.Consumer.{Exit, emptied, unwound}
use quetzalcoatl.Park.ThreadParker.{Thread}
use quetzalcoatl.Park.SoleParker
use quetzalcoatl.Park.SoleParker.{SoleParker}
use quetzalcoatl.Park.ParkRegistry
use quetzalcoatl.Park.ParkRegistry.{ParkRegistry, ParkSlot}
use quetzalcoatl.Park.WakeSet
use quetzalcoatl.Park.WakeSet.{WakeSet, as_list}
use quetzalcoatl.Slot.Done
use quetzalcoatl.Slot.Done.{DoneWord, released_for, is_free_for, holds_unconsumed_value_at}
use quetzalcoatl.Spsc.Ring.{◌>>=◌}

-- `RingBuffer<T>`, without the wakers of the feature `async`. `unparked` is no field of the source:
-- it records the threads that were unparked, the latest last.
pub record RingBuffer {ℓ} (A : Type ℓ) : Type ℓ where
  pub storage : List (Option A)
  pub done : List DoneWord
  pub capacity : Capacity
  pub cursors : Cursors
  pub closed : CloseState
  pub consumer_closed : CloseState
  pub consumer_count_live : EndpointCount
  pub consumer_slots : ParkRegistry
  pub producer_park : SoleParker
  pub consumer_park : WakeSet
  pub unparked : List Thread

-- `Producer`, without its reference to the ring.
pub record Producer : Type 0 where
  pub write_pos : ℕ

-- `Consumer`, without its reference to the ring.
pub record Consumer : Type 0 where
  pub cached_tail : ℕ
  pub batch_next : ℕ
  pub batch_end : ℕ
  pub park_slot : ParkSlot

-- The words of `n` slots, each free for its own first position.
unfoldable pub words_from : (slot : ℕ) → (n : ℕ) → List DoneWord
words_from slot zero = []
words_from slot (suc n) = released_for slot ∷ words_from (suc slot) n

abbrev pub consumer_with : ParkSlot → Consumer
consumer_with park_slot = record {
  cached_tail = 0;
  batch_next = 0;
  batch_end = 0;
  park_slot = park_slot;
}

module _ {ℓ} {A : Type ℓ} where
  unfoldable pub new : Capacity → RingBuffer A
  new capacity = record {
    storage = replicate (Capacity.get capacity) none;
    done = words_from 0 (Capacity.get capacity);
    capacity = capacity;
    cursors = Cursors.fresh;
    closed = CloseState.fresh;
    consumer_closed = CloseState.fresh;
    consumer_count_live = EndpointCount.fresh;
    consumer_slots = ParkRegistry.fresh;
    producer_park = SoleParker.fresh;
    consumer_park = WakeSet.fresh;
    unparked = [];
  }

  -- `split` and `split_borrowed`.
  unfoldable pub split : RingBuffer A → Producer × Consumer × RingBuffer A
  split r =
      let (park_slot, consumer_slots) = ParkRegistry.lease r.consumer_slots in
      (
        record { write_pos = 0 },
        consumer_with park_slot,
        record r { consumer_slots = consumer_slots },
      )

  unfoldable pub data_slot : ℕ → RingBuffer A → Option (Option A)
  data_slot pos r = get_elem? r.storage (Capacity.index_of r.capacity pos)

  unfoldable pub done_slot : ℕ → RingBuffer A → Option DoneWord
  done_slot pos r = get_elem? r.done (Capacity.index_of r.capacity pos)

  abbrev pub set_data : ℕ → Option A → RingBuffer A → RingBuffer A
  set_data pos held r = record r { storage = set r.storage (Capacity.index_of r.capacity pos) held }

  -- `(*data_ptr).write(val)`: what the slot held before is overwritten.
  unfoldable pub write_slot : ℕ → A → RingBuffer A → Option (RingBuffer A)
  write_slot pos v r = do before ← data_slot pos r; some (set_data pos (some v) r)

  -- A read that moves the value out, or a drop in place.
  unfoldable pub take_slot : ℕ → RingBuffer A → Option (A × RingBuffer A)
  take_slot pos r = do held ← data_slot pos r; v ← held; some (v, set_data pos none r)

  unfoldable pub is_free : ℕ → RingBuffer A → Option Bool
  is_free pos r = do d ← done_slot pos r; some (is_free_for d pos)

  unfoldable pub release_slot : ℕ → RingBuffer A → Option (RingBuffer A)
  release_slot pos r = do
    d ← done_slot pos r
    some (record r {
      done = set r.done (Capacity.index_of r.capacity pos) (Done.release pos r.capacity d);
    })

  unfoldable pub wake_producer : RingBuffer A → RingBuffer A
  wake_producer r =
      let (park, thread) = SoleParker.wake r.producer_park in
      record r { producer_park = park; unparked = r.unparked ++ as_list thread }

  -- `consumer_park.wake_one()`, a fence and `wake_one_published`.
  unfoldable pub wake_consumer : RingBuffer A → RingBuffer A
  wake_consumer r =
      let (park, threads) = WakeSet.wake_one_published r.consumer_park in
      record r { consumer_park = park; unparked = r.unparked ++ threads }

  unfoldable pub flush_consumers : RingBuffer A → RingBuffer A
  flush_consumers r =
      let (park, threads) = WakeSet.flush r.consumer_park in
      record r { consumer_park = park; unparked = r.unparked ++ threads }

  unfoldable pub len : RingBuffer A → ℕ
  len r = Cursors.len r.cursors

  unfoldable pub is_empty : RingBuffer A → Bool
  is_empty r = Cursors.is_empty r.cursors

  unfoldable pub is_full : RingBuffer A → Bool
  is_full r = Cursors.is_full r.cursors (Capacity.get r.capacity)

  -- The drop of each position that still owes its value a destructor, up to a panic: the
  -- values whose destructors ran, in order, and how the loop ended.
  unfoldable pub drop_positions :
      (A → Bool) → List ℕ → RingBuffer A → Option (List A × Exit × RingBuffer A)
  drop_positions returns [] r = some ([], emptied, r)
  drop_positions returns (pos ∷ rest) r = do
    d ← done_slot pos r
    elim (holds_unconsumed_value_at d pos r.capacity) [
      | true ↦ do
        (v, r') ← take_slot pos r
        if returns v
            then (do (vs, exit, r'') ← drop_positions returns rest r'; some (v ∷ vs, exit, r''))
            else some (v ∷ [], unwound, r')
      | false ↦ drop_positions returns rest r
    ]

  -- `Drop for RingBuffer<T>`: a destructor that panics leaves the later values undropped.
  unfoldable pub drop_ring : (A → Bool) → RingBuffer A → Option (List A × Exit × RingBuffer A)
  drop_ring returns r = drop_positions returns (Cursors.occupied r.cursors) r
