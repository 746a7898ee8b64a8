-- ===== src/Broadcast/Producer.antt =====
-- src/broadcast/producer.rs and reservation_abandon.rs: the operations of one producer handle, with no step
-- of another thread inside them, without the feature `async`. `needs_drop` tells whether `T` has a
-- destructor, and a destructor that panics answers `false`.
use quetzalcoatl.Common.{ℕ, zero, suc, Bool, true, false, Option, none, some, List, [], ◌∷◌}
use quetzalcoatl.Common.Tests.{◌==◌, if◌then◌else◌}
use quetzalcoatl.Common.Words.{add_usize}
use quetzalcoatl.Capacity
use quetzalcoatl.Park.ParkRegistry
use quetzalcoatl.Slot.State
use quetzalcoatl.Slot.State.{SlotState, holds_value}
use quetzalcoatl.Spsc.Ring.{◌>>=◌}
use quetzalcoatl.Spsc.Producer.{PushResult, ok, err}
use quetzalcoatl.Broadcast.Floor
use quetzalcoatl.Broadcast.Floor.{cache_permits}
use quetzalcoatl.Broadcast.Registry
use quetzalcoatl.Broadcast.Ring.{
  RingBuffer, Producer, prior_occupant_resolved, slot, update_slot, take_value, wake_producer,
  consumer_floor,
}

pub record SlotWriter : Type 0 where
  pub pos : ℕ

-- `WrittenSlot`, with the flag of its `UncommittedSlot`.
pub record WrittenSlot : Type 0 where
  pub pos : ℕ
  pub armed : Bool

-- What `claim_slot` ends with: no position, a position, or a panic of the destructor of the value that the
-- slot held before.
pub data Claim : Type 0 where
  refused : Claim
  claimed : ℕ → Claim
  panicked : Claim

module _ {ℓ} {A : Type ℓ} where
  unfoldable pub clone : RingBuffer A → Producer × RingBuffer A
  clone r =
      let (park_slot, park_slots) = ParkRegistry.lease r.producer_park_slots in
      (
        record { floor_cache = Floor.fresh; park_slot = park_slot },
        record r { producer_park_slots = park_slots },
      )

  unfoldable pub drop_producer : Producer → RingBuffer A → RingBuffer A
  drop_producer p r = record r {
    producer_park_slots = ParkRegistry.release p.park_slot r.producer_park_slots;
  }

  unfoldable pub permits_with_refresh : ℕ → Producer → RingBuffer A → Bool × Producer × RingBuffer A
  permits_with_refresh pos p r =
      let (answer, cache, shared) =
        cache_permits p.floor_cache pos (Capacity.get r.capacity)
          (Registry.any_subscribed r.consumers) r.min_head_cache (consumer_floor r) in
      (answer, record p { floor_cache = cache }, record r { min_head_cache = shared })

  unfoldable pub has_space : Producer → RingBuffer A → Bool × Producer × RingBuffer A
  has_space p r = permits_with_refresh r.tail p r

  -- The tests of one round of the loop of `claim_slot`.
  unfoldable pub may_claim : ℕ → Producer → RingBuffer A → Option (Bool × Producer × RingBuffer A)
  may_claim pos p r = do
    let (permit, p', r') = permits_with_refresh pos p r
    s ← slot pos r'
    some (
      if permit then prior_occupant_resolved (Capacity.get r.capacity) pos s.sequence else false,
      p',
      r',
    )

  -- The compare-and-swap of the tail, where it does not fail spuriously.
  unfoldable pub swap_tail : ℕ → RingBuffer A → Bool × RingBuffer A
  swap_tail current_tail r =
      if r.tail == current_tail
      then (true, record r { tail = add_usize current_tail 1 })
      else (false, r)

  -- The loop of `claim_slot`. `spurious` is the number of times that the weak compare-and-swap fails for
  -- no reason. A tail moved by another thread, which no step of one thread alone can see, is `none`.
  unfoldable pub claim_loop :
      (spurious : ℕ) → ℕ → Producer → RingBuffer A → Option (Option ℕ × Producer × RingBuffer A)
  claim_loop zero current_tail p r = do
    (may, p', r₁) ← may_claim current_tail p r
    let (won, r₂) = swap_tail current_tail r₁
    if may then (if won then some (some current_tail, p', r₂) else none) else some (none, p', r₁)
  claim_loop (suc spurious) current_tail p r = do
    (may, p', r₁) ← may_claim current_tail p r
    let retried = claim_loop spurious r₁.tail p' r₁
    if may then retried else some (none, p', r₁)

  -- What becomes of the slot of a position just claimed: the old value is dropped, if it has a destructor.
  -- A value without one is left where it is, to be overwritten.
  unfoldable pub take_over :
      (needs_drop : Bool)
      → (returns : A → Bool) → ℕ
      → RingBuffer A
      → Option (Claim × List A × RingBuffer A)
  take_over false returns pos r = do
    r' ← update_slot pos (λ s. record s { sequence = State.claim s.sequence }) r
    some (claimed pos, [], r')
  take_over true returns pos r = do
    s ← slot pos r
    let (before, word) = State.claim_taking_previous s.sequence
    r₁ ← update_slot pos (λ s. record s { sequence = word }) r
    elim (holds_value before) [
      | false ↦ some (claimed pos, [], r₁)
      | true ↦ do
        (v, r₂) ← take_value pos r₁
        some (if returns v then claimed pos else panicked, v ∷ [], r₂)
    ]

  unfoldable pub claim_slot :
      (needs_drop : Bool)
      → (returns : A → Bool) → (spurious : ℕ) → Producer
      → RingBuffer A
      → Option (Claim × List A × Producer × RingBuffer A)
  claim_slot needs_drop returns spurious p r = do
    (won, p', r₁) ← claim_loop spurious r.tail p r
    elim won [
      | none ↦ some (refused, [], p', r₁)
      | some pos ↦ do
        (claim, dropped, r₂) ← take_over needs_drop returns pos r₁
        some (claim, dropped, p', r₂)
    ]

  unfoldable pub write_slot : ℕ → A → RingBuffer A → Option (RingBuffer A)
  write_slot pos v r = update_slot pos (λ s. record s { data_ = some v }) r

  unfoldable pub publish : ℕ → RingBuffer A → Option (RingBuffer A)
  publish pos r = update_slot pos (λ s. record s { sequence = State.publish pos s.sequence }) r

  -- `Drop for SlotWriter` and `Drop for ReservationAbandon`.
  unfoldable pub abandon : ℕ → RingBuffer A → Option (RingBuffer A)
  abandon pos r = do
    r' ← update_slot pos (λ s. record s { sequence = State.abandon pos s.sequence }) r
    some (wake_producer r')

  -- The answer of `push`; a panic is `none` beside the ring that it leaves.
  unfoldable pub push :
      (needs_drop : Bool)
      → (returns : A → Bool) → (spurious : ℕ) → A
      → Producer
      → RingBuffer A
      → Option (Option (PushResult A) × List A × Producer × RingBuffer A)
  push needs_drop returns spurious v p r = do
    (claim, dropped, p', r₁) ← claim_slot needs_drop returns spurious p r
    elim claim [
      | refused ↦ some (some (err v), dropped, p', r₁)
      | claimed pos ↦ do
        r₂ ← write_slot pos v r₁
        r₃ ← publish pos r₂
        some (some ok, dropped, p', r₃)
      | panicked ↦ some (none, dropped, p', r₁)
    ]

  -- The answer of `reserve`; a panic is `none` beside the ring that it leaves.
  unfoldable pub reserve :
      (needs_drop : Bool)
      → (returns : A → Bool) → (spurious : ℕ) → Producer
      → RingBuffer A
      → Option (Option (Option SlotWriter) × List A × Producer × RingBuffer A)
  reserve needs_drop returns spurious p r = do
    (claim, dropped, p', r') ← claim_slot needs_drop returns spurious p r
    let writer : Option (Option SlotWriter) = elim claim [
      | refused ↦ some none
      | claimed pos ↦ some (some (record { pos = pos }))
      | panicked ↦ none
    ]
    some (writer, dropped, p', r')

  -- `SlotWriter::write`.
  unfoldable pub write : SlotWriter → A → RingBuffer A → Option (WrittenSlot × RingBuffer A)
  write w v r = do r' ← write_slot w.pos v r; some (record { pos = w.pos; armed = true }, r')

  unfoldable pub commit_unchecked : SlotWriter → RingBuffer A → Option (RingBuffer A)
  commit_unchecked w r = publish w.pos r

  unfoldable pub drop_writer : SlotWriter → RingBuffer A → Option (RingBuffer A)
  drop_writer w r = abandon w.pos r

  -- `Drop for WrittenSlot`: the abandonment follows the destructor, whether or not that returns.
  unfoldable pub drop_written : WrittenSlot → RingBuffer A → Option (Option A × RingBuffer A)
  drop_written w r =
      if w.armed
      then (do (v, r₁) ← take_value w.pos r; r₂ ← abandon w.pos r₁; some (some v, r₂))
      else some (none, r)

  -- `WrittenSlot::commit`: the guard is disarmed before the publication, and dropped at the end.
  unfoldable pub commit : WrittenSlot → RingBuffer A → Option (RingBuffer A)
  commit w r = do
    r₁ ← publish w.pos r
    (dropped, r₂) ← drop_written (record w { armed = false }) r₁
    some r₂
