-- ===== src/Spsc/Consumer.antt =====
-- src/spsc/consumer.rs, head_publisher.rs and consumer_close.rs: the consumer's operations.
-- A callback of `drain` and a destructor of `T` may panic: each says by a `Bool` whether it returns.
use quetzalcoatl.Common.{ℕ, zero, suc, Bool, true, false, not, Option, none, some, List, [], ◌∷◌}
use quetzalcoatl.Common.Tests.{◌==◌, if◌then◌else◌}
use quetzalcoatl.Common.Words.{add_usize}
use quetzalcoatl.Capacity
use quetzalcoatl.Sync.CloseState
use quetzalcoatl.Spsc.Ring.{Spsc, ◌>>=◌, take_slot, publish_head, wake_producer}

-- How a loop over the items ends: at an empty ring, at its limit, or by a panic.
pub data Exit : Type 0 where
  emptied at_limit unwound : Exit

pub record HeadPublisher : Type 0 where
  pub head : ℕ
  pub advanced : Bool

pub record SlotReader : Type 0 where
  pub head : ℕ

abbrev pub publisher_at : ℕ → HeadPublisher
publisher_at head = record { head = head; advanced = false }

unfoldable pub advance : HeadPublisher → HeadPublisher
advance p = record { head = add_usize p.head 1; advanced = true }

module _ {ℓ} {A : Type ℓ} where
  unfoldable pub set_cached_tail : ℕ → Spsc A → Spsc A
  set_cached_tail tail s = record s { consumer = record { cached_tail = tail } }

  unfoldable pub available : ℕ → Spsc A → Bool × Spsc A
  available head s =
      if head == s.consumer.cached_tail
      then (let tail = s.ring.cursors.tail in (not (head == tail), set_cached_tail tail s))
      else (true, s)

  -- The store of the head, and the wake.
  unfoldable pub release : ℕ → Spsc A → Spsc A
  release head s = record s { ring = wake_producer (publish_head head s.ring) }

  -- The body of `pop` once the head is loaded.
  unfoldable pub pop_at : ℕ → Spsc A → Option (Option A × Spsc A)
  pop_at head s =
      let (ready, s') = available head s in
      if ready
      then (do
        (v, ring) ← take_slot head s'.ring
        some (some v, release (add_usize head 1) (record s' { ring = ring })))
      else some (none, s')

  unfoldable pub pop : Spsc A → Option (Option A × Spsc A)
  pop s = pop_at s.ring.cursors.head s

  unfoldable pub ready_for_claim : Spsc A → Bool × Spsc A
  ready_for_claim s = available s.ring.cursors.head s

  unfoldable pub pop_ref : Spsc A → Option SlotReader × Spsc A
  pop_ref s =
      let head = s.ring.cursors.head in
      let (ready, s') = available head s in
      if ready then (some (record { head = head }), s') else (none, s')

  -- `Drop for HeadPublisher`.
  unfoldable pub drop_publisher : HeadPublisher → Spsc A → Spsc A
  drop_publisher p s = if p.advanced then release p.head s else s

  -- `Drop for SlotReader`: the value leaves its slot, and the publisher runs after it whether or not
  -- the destructor of the value returns.
  unfoldable pub drop_reader : SlotReader → Spsc A → Option (A × Spsc A)
  drop_reader r s = do
    (v, ring) ← take_slot r.head s.ring
    some (v, drop_publisher (advance (publisher_at r.head)) (record s { ring = ring }))

  -- `Drop for ConsumerClose`.
  unfoldable pub drop_close : Spsc A → Spsc A
  drop_close s = record s {
    ring =
        wake_producer
          (record (s.ring) { consumer_closed = CloseState.close s.ring.consumer_closed });
  }

  -- `while self.pop().is_some() {}`, where each popped value is dropped. The values dropped, in order.
  unfoldable pub drop_items : (fuel : ℕ) → (A → Bool) → Spsc A → Option (List A × Exit × Spsc A)
  drop_items zero returns s = some ([], at_limit, s)
  drop_items (suc fuel) returns s = do
    (popped, s') ← pop s
    elim popped [
      | none ↦ some ([], emptied, s')
      | some v ↦
          if returns v
          then (do (vs, exit, s'') ← drop_items fuel returns s'; some (v ∷ vs, exit, s''))
          else some (v ∷ [], unwound, s')
    ]

  -- `Drop for Consumer`, one more round than the ring has slots.
  unfoldable pub drop_consumer : (A → Bool) → Spsc A → Option (List A × Exit × Spsc A)
  drop_consumer returns s = do
    (vs, exit, s') ← drop_items (suc (Capacity.get s.ring.capacity)) returns s
    some (vs, exit, drop_close s')

-- What a drain leaves: the callback's state, the number of items handed to it, how the loop ended,
-- the publisher, and the ring.
pub record Drain {ℓ κ} (A : Type ℓ) (S : Type κ) : Type (ℓ ⊔ κ) where
  pub state : S
  pub count : ℕ
  pub exit : Exit
  pub publisher : HeadPublisher
  pub spsc : Spsc A

module _ {ℓ κ} {A : Type ℓ} {S : Type κ} (f : S → A → S × Bool) where
  -- The loop of `drain` and `drain_up_to`, at most `rounds` times round.
  unfoldable pub drain_loop : (rounds : ℕ) → S → ℕ → HeadPublisher → Spsc A → Option (Drain A S)
  drain_loop zero st count p s =
      some (record { state = st; count = count; exit = at_limit; publisher = p; spsc = s })
  drain_loop (suc rounds) st count p s =
      let (ready, s') = available p.head s in
      if ready
      then (do
        (v, ring) ← take_slot p.head s'.ring
        let p' = advance p
        let s'' = record s' { ring = ring }
        let st' = (f st v).0
        let rest = drain_loop rounds st' (suc count) p' s''
        if (f st v).1
            then rest
            else some (record {
              state = st';
              count = suc count;
              exit = unwound;
              publisher = p';
              spsc = s'';
            }))
      else some (record { state = st; count = count; exit = emptied; publisher = p; spsc = s' })

  -- The publisher is dropped last, on the normal path and while unwinding.
  unfoldable pub drain_up_to : ℕ → S → Spsc A → Option (Drain A S)
  drain_up_to limit st s = do
    d ← drain_loop limit st 0 (publisher_at s.ring.cursors.head) s
    some (record d { spsc = drop_publisher d.publisher d.spsc })

  -- `drain` has no limit; one more round than the ring has slots is enough.
  unfoldable pub drain : S → Spsc A → Option (Drain A S)
  drain st s = drain_up_to (suc (Capacity.get s.ring.capacity)) st s
