-- ===== src/Mpsc/Threads.antt =====
-- Any number of producer handles and the consumer of an mpsc ring, interleaved in any order: the code of
-- `push`, of a reservation and of `pop`, cut at its accesses to shared cells. A step holds at most one
-- access to a cell that another thread writes, in one total order of all accesses.
pub mod Inv
pub mod Frame
pub mod Writes
pub mod Claims
pub mod Looks
pub mod PushSteps
pub mod PopSteps
pub mod Safety
use quetzalcoatl.Common.{ℕ, Bool, true, false, Option, none, some, List, [], ◌∷◌, ◌++◌}
use quetzalcoatl.Common.Tests.{if◌then◌else◌}
use quetzalcoatl.Common.Words.{add_usize}
use quetzalcoatl.Slot.Sequence.{SlotSnapshot, ready, tombstoned, not_ready}
use quetzalcoatl.Park.ParkRegistry.{shared}
use quetzalcoatl.Spsc.Ring.{◌>>=◌}
use quetzalcoatl.Mpsc.Ring.{
  RingBuffer, Producer, write_slot, take_slot, tombstone_slot, release_slot, publish_head,
  wake_consumer, wake_producer,
}
use quetzalcoatl.Mpsc.Producer.{check_room, swap_tail, publish, abandon}
use quetzalcoatl.Mpsc.Consumer.{classify_at}
use quetzalcoatl.Mpsc.Board.{Fate, unclaimed, pending, sent, dead, update}

-- Where a producer stands: between two pushes; before the test for room and before the swap, with the
-- tail that it has loaded; before the write of its slot, the publication, or the tombstone.
pub data Pushing {ℓ} (A : Type ℓ) : Type ℓ where
  resting : Pushing A
  checking : ℕ → A → Pushing A
  swapping : ℕ → A → Pushing A
  writing : ℕ → A → Pushing A
  publishing : ℕ → A → Pushing A
  abandoning : ℕ → Pushing A

-- Where the consumer stands: before the read of the sequence word, before the read of the value, before
-- the release of the slot, and before the store of the head.
pub data Popping : Type 0 where
  testing : Popping
  reading : ℕ → Popping
  releasing : ℕ → Popping
  advancing : ℕ → Popping

pub record Handle {ℓ} (A : Type ℓ) : Type ℓ where
  pub producer : Producer
  pub place : Pushing A

-- `fate` and `received` record what became of each position, and the values that the consumer has read.
-- Every number is a handle; one that has not moved is a clone that was just made.
pub record Threads {ℓ} (A : Type ℓ) : Type ℓ where
  pub ring : RingBuffer A
  pub handles : ℕ → Handle A
  pub popping : Popping
  pub fate : ℕ → Fate A
  pub received : List A

-- Which thread moves next. A push that begins pushes the value given; `detour` makes a weak swap fail
-- for no reason, and has a reservation given up instead of written or published.
pub data Turn {ℓ} (A : Type ℓ) : Type ℓ where
  produce : (handle : ℕ) → (v : A) → (detour : Bool) → Turn A
  consume : Turn A

module _ {ℓ} {A : Type ℓ} where
  unfoldable pub put : ℕ → Handle A → Threads A → Threads A
  put i h t = record t { handles = update t.handles i h }

  unfoldable pub move : ℕ → Pushing A → Threads A → Threads A
  move i place t = put i (record (t.handles i) { place = place }) t

  unfoldable pub checked : ℕ → ℕ → A → Threads A → Bool × Producer → Threads A
  checked i tail v t (room, p) =
      put i (record { producer = p; place = if room then swapping tail v else resting }) t

  unfoldable pub swapped : ℕ → ℕ → A → Threads A → Bool × RingBuffer A → Threads A
  swapped i tail v t (true, r) =
      move i (writing tail v) (record t { ring = r; fate = update t.fate tail (pending i none) })
  swapped i tail v t (false, r) = move i (checking r.cursors.tail v) (record t { ring = r })

  -- The next step of handle `i`.
  unfoldable pub push_step : ℕ → Pushing A → A → Bool → Threads A → Option (Threads A)
  push_step i resting v detour t = some (move i (checking t.ring.cursors.tail v) t)
  push_step i (checking tail w) v detour t =
      some (checked i tail w t (check_room tail (t.handles i).producer t.ring))
  push_step i (swapping tail w) v true t = some (swapped i tail w t (false, t.ring))
  push_step i (swapping tail w) v false t = some (swapped i tail w t (swap_tail tail t.ring))
  push_step i (writing pos w) v true t = some (move i (abandoning pos) t)
  push_step i (writing pos w) v false t = do
    r ← write_slot pos w t.ring
    some (
        move i (publishing pos w)
          (record t { ring = r; fate = update t.fate pos (pending i (some w)) }))
  push_step i (publishing pos w) v true t = do
    (dropped, r) ← take_slot pos t.ring
    some
        (move i (abandoning pos) (record t { ring = r; fate = update t.fate pos (pending i none) }))
  push_step i (publishing pos w) v false t = do
    r ← publish pos t.ring
    some (move i resting (record t { ring = r; fate = update t.fate pos (sent w) }))
  push_step i (abandoning pos) v detour t = do
    r ← abandon pos t.ring
    some (move i resting (record t { ring = r; fate = update t.fate pos dead }))

  unfoldable pub tested : ℕ → SlotSnapshot (Option A) → Popping
  tested head (ready data_) = reading head
  tested head tombstoned = releasing head
  tested head not_ready = testing

  -- The next step of the consumer.
  unfoldable pub pop_step : Popping → Threads A → Option (Threads A)
  pop_step testing t = do
    snapshot ← classify_at t.ring.cursors.head t.ring
    some (record t { popping = tested t.ring.cursors.head snapshot })
  pop_step (reading head) t = do
    (v, r) ← take_slot head t.ring
    some (record t { ring = r; popping = releasing head; received = t.received ++ (v ∷ []) })
  pop_step (releasing head) t = do
    r ← release_slot head t.ring
    some (record t { ring = r; popping = advancing head })
  pop_step (advancing head) t = some (record t {
    ring = wake_producer (publish_head (add_usize head 1) t.ring);
    popping = testing;
  })

  unfoldable pub turn : Turn A → Threads A → Option (Threads A)
  turn (produce i v detour) t = push_step i (t.handles i).place v detour t
  turn consume t = pop_step t.popping t

  unfoldable pub interleave : List (Turn A) → Threads A → Option (Threads A)
  interleave [] t = some t
  interleave (m ∷ ms) t = do t' ← turn m t; interleave ms t'

  unfoldable pub start : RingBuffer A → Threads A
  start r = record {
    ring = r;
    handles =
        λ i. record { producer = record { cached_head = 0; park_slot = shared }; place = resting };
    popping = testing;
    fate = λ p. unclaimed;
    received = [];
  }
