-- ===== src/Spsc/Producer.antt =====
-- src/spsc/producer.rs: the producer's operations, and the two guards of a reservation.
use quetzalcoatl.Common.{ℕ, Bool, true, false, Option, none, some}
use quetzalcoatl.Common.Tests.{leb, ltb, if◌then◌else◌}
use quetzalcoatl.Common.Words.{add_usize, sub_usize}
use quetzalcoatl.Capacity
use quetzalcoatl.Sync.CloseState
use quetzalcoatl.Spsc.Ring.{Spsc, ◌>>=◌, write_slot, take_slot, publish_tail, wake_consumer}

-- `Result<(), T>`.
pub data PushResult {ℓ} (A : Type ℓ) : Type ℓ where
  ok : PushResult A
  err : A → PushResult A

-- `SlotWriter` holds the position that it reserves; its references to the ring are the state.
pub record SlotWriter : Type 0 where
  pub pos : ℕ

-- `WrittenSlot`, with the flag of its `UncommittedSlot`.
pub record WrittenSlot : Type 0 where
  pub pos : ℕ
  pub armed : Bool

module _ {ℓ} {A : Type ℓ} where
  unfoldable pub set_cached_head : ℕ → Spsc A → Spsc A
  set_cached_head head s = record s { producer = record (s.producer) { cached_head = head } }

  unfoldable pub try_claim : Spsc A → Option ℕ × Spsc A
  try_claim s =
      let pos = s.producer.write_pos in
      let cap = Capacity.get s.ring.capacity in
      if leb cap (sub_usize pos s.producer.cached_head)
      then (let head = s.ring.cursors.head in
          let s' = set_cached_head head s in
          if leb cap (sub_usize pos head) then (none, s') else (some pos, s'))
      else (some pos, s)

  unfoldable pub has_space : Spsc A → Bool × Spsc A
  has_space s =
      let pos = s.producer.write_pos in
      let cap = Capacity.get s.ring.capacity in
      if ltb (sub_usize pos s.producer.cached_head) cap
      then (true, s)
      else (let head = s.ring.cursors.head in
          (ltb (sub_usize pos head) cap, set_cached_head head s))

  -- `write_pos.set(pos + 1)`, the store of the tail, and the wake.
  unfoldable pub publish : ℕ → Spsc A → Spsc A
  publish pos s = record s {
    producer = record (s.producer) { write_pos = add_usize pos 1 };
    ring = wake_consumer (publish_tail (add_usize pos 1) s.ring);
  }

  unfoldable pub push : A → Spsc A → Option (PushResult A × Spsc A)
  push v s =
      let (claim, s') = try_claim s in
      elim claim [
        | none ↦ some (err v, s')
        | some pos ↦ do
          ring ← write_slot pos v s'.ring
          some (ok, publish pos (record s' { ring = ring }))
      ]

  unfoldable pub reserve : Spsc A → Option SlotWriter × Spsc A
  reserve s =
      let (claim, s') = try_claim s in
      elim claim [ none ↦ (none, s') | some pos ↦ (some (record { pos = pos }), s') ]

  -- `SlotWriter::write`.
  unfoldable pub write : SlotWriter → A → Spsc A → Option (WrittenSlot × Spsc A)
  write w v s = do
    ring ← write_slot w.pos v s.ring
    some (record { pos = w.pos; armed = true }, record s { ring = ring })

  -- `SlotWriter::commit_unchecked`.
  unfoldable pub commit_unchecked : SlotWriter → Spsc A → Spsc A
  commit_unchecked w s = publish w.pos s

  -- `Drop for UncommittedSlot`: the value is dropped in place while the guard is armed. Returns the
  -- value dropped, if one is; the guard ends here, and the flag that the call clears ends with it.
  unfoldable pub drop_if_uncommitted : WrittenSlot → Spsc A → Option (Option A × Spsc A)
  drop_if_uncommitted w s =
      if w.armed
      then (do (v, ring) ← take_slot w.pos s.ring; some (some v, record s { ring = ring }))
      else some (none, s)

  -- `WrittenSlot::commit`: the guard is disarmed before the publication, and its destructor runs at
  -- the end.
  unfoldable pub commit : WrittenSlot → Spsc A → Option (Spsc A)
  commit w s = do
    (dropped, s') ← drop_if_uncommitted (record w { armed = false }) (publish w.pos s)
    some s'

  -- `Drop for Producer`.
  unfoldable pub drop_producer : Spsc A → Spsc A
  drop_producer s = record s {
    ring =
        wake_consumer
          (record (s.ring) { producer_closed = CloseState.close s.ring.producer_closed });
  }
