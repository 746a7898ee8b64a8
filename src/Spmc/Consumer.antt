-- ===== src/Spmc/Consumer.antt =====
-- src/spmc/consumer.rs, slot_release.rs, drain_wake.rs and consumer_close.rs: the operations of one
-- consumer handle, with no step of another thread inside them. A destructor or a callback that panics is
-- one that answers `false`.
use quetzalcoatl.Common.{
  ℕ, zero, suc, ◌-◌, min, Bool, true, false, not, Option, none, some, List, [], ◌∷◌,
}
use quetzalcoatl.Common.Tests.{ltb, leb, ◌==◌, if◌then◌else◌}
use quetzalcoatl.Common.Words.{add_usize, sub_usize}
use quetzalcoatl.Capacity
use quetzalcoatl.Sync.Cursors
use quetzalcoatl.Sync.Cursors.{positions}
use quetzalcoatl.Sync.CloseState
use quetzalcoatl.Sync.EndpointCount
use quetzalcoatl.Park.ParkRegistry
use quetzalcoatl.Park.ParkRegistry.{ParkSlot}
use quetzalcoatl.Spsc.Ring.{◌>>=◌}
use quetzalcoatl.Spsc.Consumer.{Exit, emptied, at_limit, unwound}
use quetzalcoatl.Spmc.Ring.{
  RingBuffer, Consumer, consumer_with, take_slot, release_slot, wake_producer,
}

abbrev pub batch_size : ℕ
batch_size = 4

pub record SlotReader : Type 0 where
  pub head : ℕ

-- The end of the batch that a claim at `head` takes when the tail is `tail`.
abbrev pub batch_after : (head tail : ℕ) → ℕ
batch_after head tail = add_usize head (min (sub_usize tail head) batch_size)

-- The cells after a claim of the positions from `head` to below `new_head`, of which `head` is read next.
abbrev pub take_batch : (head new_head : ℕ) → Consumer → Consumer
take_batch head new_head c = record c { batch_next = add_usize head 1; batch_end = new_head }

-- Whether the handle holds a claimed position, and then that position.
abbrev pub next_claimed : Consumer → Option ℕ
next_claimed c = if ltb c.batch_next c.batch_end then some c.batch_next else none

abbrev pub step_batch : Consumer → Consumer
step_batch c = record c { batch_next = add_usize c.batch_next 1 }

module _ {ℓ} {A : Type ℓ} where
  -- `Clone for Consumer` and `new_consumer`.
  unfoldable pub clone : RingBuffer A → Consumer × RingBuffer A
  clone r =
      let (park_slot, consumer_slots) = ParkRegistry.lease r.consumer_slots in
      (
        consumer_with park_slot,
        record r {
          consumer_count_live = EndpointCount.register r.consumer_count_live;
          consumer_slots = consumer_slots;
        },
      )

  -- The load of the tail into the cell that caches it.
  abbrev pub see_tail : Consumer → RingBuffer A → Consumer
  see_tail c r = record c { cached_tail = r.cursors.tail }

  -- The compare-and-swap of the head, where it does not fail spuriously.
  unfoldable pub swap_head : (head new_head : ℕ) → RingBuffer A → Bool × RingBuffer A
  swap_head head new_head r =
      if r.cursors.head == head
      then (true, record r { cursors = Cursors.publish_head r.cursors new_head })
      else (false, r)

  -- The loop of `claim_batch`. `spurious` is the number of times that the weak compare-and-swap fails
  -- for no reason. A cursor moved by another thread, which no step of one thread alone can see, is
  -- `none`.
  unfoldable pub claim_batch :
      (spurious : ℕ) → Consumer → RingBuffer A → Option (Option ℕ × Consumer × RingBuffer A)
  claim_batch zero c r =
      let head = r.cursors.head in
      let c' = if leb c.cached_tail head then see_tail c r else c in
      let new_head = batch_after head c'.cached_tail in
      let (won, r') = swap_head head new_head r in
      if leb c'.cached_tail head
      then some (none, c', r)
      else (if won then some (some head, take_batch head new_head c', r') else none)
  claim_batch (suc spurious) c r =
      let head = r.cursors.head in
      let c' = if leb c.cached_tail head then see_tail c r else c in
      let retried = claim_batch spurious c' r in
      if leb c'.cached_tail head then some (none, c', r) else retried

  unfoldable pub claim_slot :
      (spurious : ℕ) → Consumer → RingBuffer A → Option (Option ℕ × Consumer × RingBuffer A)
  claim_slot spurious c r = elim (next_claimed c) [
    | some pos ↦ some (some pos, step_batch c, r)
    | none ↦ claim_batch spurious c r
  ]

  unfoldable pub has_item : Consumer → RingBuffer A → Bool × Consumer
  has_item c r =
      if ltb c.batch_next c.batch_end
      then (true, c)
      else (if ltb r.cursors.head c.cached_tail
          then (true, c)
          else (ltb r.cursors.head r.cursors.tail, see_tail c r))

  -- The read of a claimed position, and its release.
  unfoldable pub read_at : ℕ → RingBuffer A → Option (A × RingBuffer A)
  read_at head r = do (v, r₁) ← take_slot head r; r₂ ← release_slot head r₁; some (v, r₂)

  unfoldable pub pop :
      (spurious : ℕ) → Consumer → RingBuffer A → Option (Option A × Consumer × RingBuffer A)
  pop spurious c r = do
    (claim, c', r₁) ← claim_slot spurious c r
    elim claim [
      | none ↦ some (none, c', r₁)
      | some head ↦ do (v, r₂) ← read_at head r₁; some (some v, c', wake_producer r₂)
    ]

  unfoldable pub pop_ref :
      (spurious : ℕ)
      → Consumer
      → RingBuffer A
      → Option (Option SlotReader × Consumer × RingBuffer A)
  pop_ref spurious c r = do
    (claim, c', r') ← claim_slot spurious c r
    some (elim claim [ none ↦ none | some head ↦ some (record { head = head }) ], c', r')

  -- `Drop for SlotReader`: the release follows the destructor of the value, whether or not that returns.
  unfoldable pub drop_reader : SlotReader → RingBuffer A → Option (A × RingBuffer A)
  drop_reader reader r = do (v, r') ← read_at reader.head r; some (v, wake_producer r')

  -- `Drop for DrainWake`.
  unfoldable pub drop_wake : (released : Bool) → RingBuffer A → RingBuffer A
  drop_wake released r = if released then wake_producer r else r

  -- The drop of the values that the handle has claimed and not read, up to one whose destructor panics.
  unfoldable pub drop_claimed :
      (A → Bool) → List ℕ → RingBuffer A → Option (List A × Exit × RingBuffer A)
  drop_claimed returns [] r = some ([], emptied, r)
  drop_claimed returns (pos ∷ rest) r = do
    (v, r₁) ← take_slot pos r
    if returns v
        then (do
          r₂ ← release_slot pos r₁
          (vs, exit, r₃) ← drop_claimed returns rest r₂
          some (v ∷ vs, exit, r₃))
        else some (v ∷ [], unwound, r₁)

  -- `Drop for ConsumerClose`.
  unfoldable pub drop_close : ParkSlot → RingBuffer A → RingBuffer A
  drop_close park_slot r =
      let (count, last) = EndpointCount.release r.consumer_count_live in
      let r' = record r {
        consumer_slots = ParkRegistry.release park_slot r.consumer_slots;
        consumer_count_live = count;
      } in
      if last
      then wake_producer (record r' { consumer_closed = CloseState.close r'.consumer_closed })
      else r'

  -- `Drop for Consumer`: the retirement comes last, also while unwinding.
  unfoldable pub drop_consumer :
      (A → Bool) → Consumer → RingBuffer A → Option (List A × Exit × RingBuffer A)
  drop_consumer returns c r = do
    (vs, exit, r') ← drop_claimed returns (positions c.batch_next (c.batch_end - c.batch_next)) r
    some (vs, exit, drop_close c.park_slot r')

-- What a drain leaves: the callback's state, the number of values, how the loop ended, the handle and the
-- ring.
pub record Drain {ℓ κ} (A : Type ℓ) (S : Type κ) : Type (ℓ ⊔ κ) where
  pub state : S
  pub count : ℕ
  pub exit : Exit
  pub consumer : Consumer
  pub ring : RingBuffer A

module _ {ℓ κ} {A : Type ℓ} {S : Type κ} (f : S → A → S × Bool) where
  -- The loop of `drain_up_to`, from the number of values delivered so far; `limit` is the number still
  -- to deliver.
  unfoldable pub drain_loop : (limit : ℕ) → S → ℕ → Consumer → RingBuffer A → Option (Drain A S)
  drain_loop zero st count c r =
      some (record { state = st; count = count; exit = at_limit; consumer = c; ring = r })
  drain_loop (suc limit) st count c r = do
    (claim, c', r₁) ← claim_slot 0 c r
    elim claim [
      | none ↦ some (record { state = st; count = count; exit = emptied; consumer = c'; ring = r₁ })
      | some head ↦ do
        (v, r₂) ← read_at head r₁
        let st' = (f st v).0
        let rest = drain_loop limit st' (add_usize count 1) c' r₂
        if (f st v).1
            then rest
            else some (record {
              state = st';
              count = add_usize count 1;
              exit = unwound;
              consumer = c';
              ring = r₂;
            })
    ]

  -- The producer is woken last, on the normal path and while unwinding, if a slot was released.
  unfoldable pub drain_up_to : ℕ → S → Consumer → RingBuffer A → Option (Drain A S)
  drain_up_to limit st c r = do
    d ← drain_loop limit st 0 c r
    some (record d { ring = drop_wake (not (d.count == 0)) d.ring })

  -- `drain` has no limit; the claimed positions and the slots of the ring bound its rounds.
  unfoldable pub drain : S → Consumer → RingBuffer A → Option (Drain A S)
  drain st c r = drain_up_to (suc (suc (Capacity.get r.capacity))) st c r
