-- ===== src/Broadcast/Ring.antt =====
-- src/broadcast/mod.rs and slot_reuse.rs: the ring that the producers and the consumers share. A slot holds
-- `some v` while it has an initialized value. A step that would be undefined behaviour in the source (a
-- read of a slot with no value, an access past the buffer), or panics, is `none`.
use quetzalcoatl.Common.{
  ℕ, ◌-◌, min, Bool, true, false, not, ◌||◌, Option, none, some, List, [], ◌∷◌, ◌++◌,
}
use quetzalcoatl.Common.Tests.{if◌then◌else◌, leb, ltb, ◌==◌}
use quetzalcoatl.Common.Lists.{get_elem?, set, replicate}
use quetzalcoatl.Common.Words.{sub_usize}
use quetzalcoatl.Capacity
use quetzalcoatl.Capacity.{Capacity}
use quetzalcoatl.Sync.Cursors.{positions}
use quetzalcoatl.Spsc.Consumer.{Exit, emptied, unwound}
use quetzalcoatl.Park.ThreadParker.{Thread}
use quetzalcoatl.Park.ParkRegistry
use quetzalcoatl.Park.ParkRegistry.{ParkRegistry, ParkSlot}
use quetzalcoatl.Park.WakeSet
use quetzalcoatl.Park.WakeSet.{WakeSet}
use quetzalcoatl.Slot.Sequence.{SlotSnapshot}
use quetzalcoatl.Slot.State
use quetzalcoatl.Slot.State.{SequenceWord, holds_value, decode, is_claim_in_progress}
use quetzalcoatl.Spsc.Ring.{◌>>=◌}
use quetzalcoatl.Broadcast.Floor
use quetzalcoatl.Broadcast.Floor.{
  ConsumerFloor, position_or_tail, SharedFloor, shared_fresh, FloorCache,
}
use quetzalcoatl.Broadcast.Registry
use quetzalcoatl.Broadcast.Registry.{ConsumerRegistry}

pub record BroadcastSlot {ℓ} (A : Type ℓ) : Type ℓ where
  pub data_ : Option A
  pub sequence : SequenceWord

-- `RingBuffer<T>`, without the fields of the feature `async`. `unparked` is no field of the source: it
-- records the threads that were unparked, the latest last.
pub record RingBuffer {ℓ} (A : Type ℓ) : Type ℓ where
  pub buf : List (BroadcastSlot A)
  pub capacity : Capacity
  pub consumers : ConsumerRegistry
  pub tail : ℕ
  pub min_head_cache : SharedFloor
  pub producer_park : WakeSet
  pub producer_park_slots : ParkRegistry
  pub unparked : List Thread

-- `Producer` and `Consumer`, without their references to the ring.
pub record Producer : Type 0 where
  pub floor_cache : FloorCache
  pub park_slot : ParkSlot

pub record Consumer : Type 0 where
  pub slot_index : ℕ

-- `SlotReuse::prior_occupant_resolved`.
unfoldable pub prior_occupant_resolved : (cap pos : ℕ) → SequenceWord → Bool
prior_occupant_resolved cap pos sequence = ltb pos cap || not (is_claim_in_progress sequence)

module _ {ℓ} {A : Type ℓ} where
  unfoldable pub slot_classify : BroadcastSlot A → ℕ → SlotSnapshot (Option A)
  slot_classify s pos = State.classify s.sequence s.data_ pos

  unfoldable pub new : Capacity → (max_consumers : ℕ) → Option (RingBuffer A)
  new capacity max_consumers = do
    consumers ← Registry.new max_consumers
    some (record {
      buf = replicate (Capacity.get capacity) (record { data_ = none; sequence = State.fresh });
      capacity = capacity;
      consumers = consumers;
      tail = 0;
      min_head_cache = shared_fresh;
      producer_park = WakeSet.fresh;
      producer_park_slots = ParkRegistry.fresh;
      unparked = [];
    })

  unfoldable pub split : RingBuffer A → Option (Producer × Consumer × RingBuffer A)
  split r = do
    (slot_index, consumers) ← Registry.subscribe_first r.consumers
    let (park_slot, park_slots) = ParkRegistry.lease r.producer_park_slots
    some (
      record { floor_cache = Floor.fresh; park_slot = park_slot },
      record { slot_index = slot_index },
      record r { consumers = consumers; producer_park_slots = park_slots },
    )

  unfoldable pub slot : ℕ → RingBuffer A → Option (BroadcastSlot A)
  slot pos r = get_elem? r.buf (Capacity.index_of r.capacity pos)

  unfoldable pub update_slot :
      ℕ → (BroadcastSlot A → BroadcastSlot A) → RingBuffer A → Option (RingBuffer A)
  update_slot pos f r = do
    s ← slot pos r
    some (record r { buf = set r.buf (Capacity.index_of r.capacity pos) (f s) })

  -- A drop in place: the slot must hold a value, which it loses.
  unfoldable pub take_value : ℕ → RingBuffer A → Option (A × RingBuffer A)
  take_value pos r = do
    s ← slot pos r
    v ← s.data_
    r' ← update_slot pos (λ s. record s { data_ = none }) r
    some (v, r')

  unfoldable pub wake_producer : RingBuffer A → RingBuffer A
  wake_producer r =
      let (park, threads) = WakeSet.wake_one_published r.producer_park in
      record r { producer_park = park; unparked = r.unparked ++ threads }

  unfoldable pub flush_producers : RingBuffer A → RingBuffer A
  flush_producers r =
      let (park, threads) = WakeSet.flush r.producer_park in
      record r { producer_park = park; unparked = r.unparked ++ threads }

  unfoldable pub consumer_floor : RingBuffer A → ConsumerFloor
  consumer_floor r = Registry.floor r.consumers

  unfoldable pub len : RingBuffer A → ℕ
  len r = sub_usize r.tail (position_or_tail (consumer_floor r) r.tail)

  unfoldable pub is_empty : RingBuffer A → Bool
  is_empty r = len r == 0

  unfoldable pub is_full : RingBuffer A → Bool
  is_full r = leb (Capacity.get r.capacity) (len r)

  -- The drop of the values that the slots of these positions hold, in order, up to a panic.
  unfoldable pub drop_positions :
      (A → Bool) → List ℕ → RingBuffer A → Option (List A × Exit × RingBuffer A)
  drop_positions returns [] r = some ([], emptied, r)
  drop_positions returns (pos ∷ rest) r = do
    s ← slot pos r
    elim (holds_value (decode s.sequence.at)) [
      | true ↦ do
        (v, r') ← take_value pos r
        if returns v
            then (do (vs, exit, r'') ← drop_positions returns rest r'; some (v ∷ vs, exit, r''))
            else some (v ∷ [], unwound, r')
      | false ↦ drop_positions returns rest r
    ]

  -- `Drop for RingBuffer<T>`: a destructor that panics leaves the later values undropped.
  unfoldable pub drop_ring : (A → Bool) → RingBuffer A → Option (List A × Exit × RingBuffer A)
  drop_ring returns r =
      let start = sub_usize r.tail (min r.tail (Capacity.get r.capacity)) in
      drop_positions returns (positions start (r.tail - start)) r
