-- ===== src/Spsc/Ring.antt =====
-- src/spsc/mod.rs: the ring that both handles share, its slots, and the handles' private cursors.
-- A slot is `some v` while it holds an initialized value that has not been moved out. A step that
-- would be undefined behaviour in the source (a read of a slot with no value, an access past the
-- buffer) returns `none`.
use quetzalcoatl.Common.{ℕ, Bool, Option, none, some, List, [], ◌∷◌}
use quetzalcoatl.Common.Tests.{ltb, if◌then◌else◌}
use quetzalcoatl.Common.Lists.{length, get_elem?, set, replicate}
use quetzalcoatl.Capacity
use quetzalcoatl.Capacity.{Capacity}
use quetzalcoatl.Sync.Cursors
use quetzalcoatl.Sync.Cursors.{Cursors}
use quetzalcoatl.Sync.CloseState
use quetzalcoatl.Sync.CloseState.{CloseState}
use quetzalcoatl.Park.ThreadParker.{Thread}
use quetzalcoatl.Park.SoleParker
use quetzalcoatl.Park.SoleParker.{SoleParker}

-- The chain of steps that may be undefined behaviour.
infixl 5 ◌>>=◌
abbrev pub ◌>>=◌ {ℓ κ} : {A : Type ℓ} {B : Type κ} → Option A → (A → Option B) → Option B
none >>= f = none
some a >>= f = f a

-- `RingBuffer<T>`, without the wakers of the feature `async`. `unparked` is no field of the source:
-- it records the threads that were unparked, the latest first.
pub record RingBuffer {ℓ} (A : Type ℓ) : Type ℓ where
  pub buf : List (Option A)
  pub capacity : Capacity
  pub cursors : Cursors
  pub producer_closed : CloseState
  pub consumer_closed : CloseState
  pub producer_park : SoleParker
  pub consumer_park : SoleParker
  pub unparked : List Thread

-- The cells of `Producer`.
pub record Producer : Type 0 where
  pub write_pos : ℕ
  pub cached_head : ℕ

-- The cell of `Consumer`.
pub record Consumer : Type 0 where
  pub cached_tail : ℕ

-- A ring with its two handles.
pub record Spsc {ℓ} (A : Type ℓ) : Type ℓ where
  pub ring : RingBuffer A
  pub producer : Producer
  pub consumer : Consumer

module _ {ℓ} {A : Type ℓ} where
  unfoldable pub new : Capacity → RingBuffer A
  new capacity = record {
    buf = replicate (Capacity.get capacity) none;
    capacity = capacity;
    cursors = Cursors.fresh;
    producer_closed = CloseState.fresh;
    consumer_closed = CloseState.fresh;
    producer_park = SoleParker.fresh;
    consumer_park = SoleParker.fresh;
    unparked = [];
  }

  -- `split` and `split_borrowed`.
  unfoldable pub split : RingBuffer A → Spsc A
  split r = record {
    ring = r;
    producer = record { write_pos = 0; cached_head = 0 };
    consumer = record { cached_tail = 0 };
  }

  -- `slot(pos).get().write(MaybeUninit::new(v))`: what the slot held is overwritten, not dropped.
  unfoldable pub write_slot : ℕ → A → RingBuffer A → Option (RingBuffer A)
  write_slot pos v r =
      let idx = Capacity.index_of r.capacity pos in
      if ltb idx (length r.buf) then some (record r { buf = set r.buf idx (some v) }) else none

  -- `slot(pos).get().assume_init_read()`, and a drop in place: the value leaves the slot.
  unfoldable pub take_slot : ℕ → RingBuffer A → Option (A × RingBuffer A)
  take_slot pos r =
      let idx = Capacity.index_of r.capacity pos in
      elim (get_elem? r.buf idx) [
        | none ↦ none
        | some none ↦ none
        | some (some v) ↦ some (v, record r { buf = set r.buf idx none })
      ]

  unfoldable pub note_unpark : Option Thread → RingBuffer A → RingBuffer A
  note_unpark none r = r
  note_unpark (some t) r = record r { unparked = t ∷ r.unparked }

  unfoldable pub wake_producer : RingBuffer A → RingBuffer A
  wake_producer r =
      let (park, thread) = SoleParker.wake_published r.producer_park in
      note_unpark thread (record r { producer_park = park })

  unfoldable pub wake_consumer : RingBuffer A → RingBuffer A
  wake_consumer r =
      let (park, thread) = SoleParker.wake_published r.consumer_park in
      note_unpark thread (record r { consumer_park = park })

  unfoldable pub publish_head : ℕ → RingBuffer A → RingBuffer A
  publish_head head r = record r { cursors = Cursors.publish_head r.cursors head }

  unfoldable pub publish_tail : ℕ → RingBuffer A → RingBuffer A
  publish_tail tail r = record r { cursors = Cursors.publish_tail r.cursors tail }

  unfoldable pub len : RingBuffer A → ℕ
  len r = Cursors.len r.cursors

  unfoldable pub is_empty : RingBuffer A → Bool
  is_empty r = Cursors.is_empty r.cursors

  unfoldable pub is_full : RingBuffer A → Bool
  is_full r = Cursors.is_full r.cursors (Capacity.get r.capacity)

  unfoldable pub close : RingBuffer A → RingBuffer A
  close r = wake_consumer (record r { producer_closed = CloseState.close r.producer_closed })
