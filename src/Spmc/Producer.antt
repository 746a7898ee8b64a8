-- ===== src/Spmc/Producer.antt =====
-- src/spmc/producer.rs: the operations of the producer, with no step of another thread inside them.
use quetzalcoatl.Common.{ℕ, Bool, true, false, Option, none, some}
use quetzalcoatl.Common.Tests.{if◌then◌else◌}
use quetzalcoatl.Common.Words.{add_usize}
use quetzalcoatl.Sync.Cursors
use quetzalcoatl.Sync.CloseState
use quetzalcoatl.Spsc.Ring.{◌>>=◌}
use quetzalcoatl.Spsc.Producer.{PushResult, ok, err}
use quetzalcoatl.Spmc.Ring.{
  RingBuffer, Producer, write_slot, take_slot, is_free, wake_consumer, flush_consumers,
}

-- `SlotWriter` holds the position; its references to the ring and the producer are the state.
pub record SlotWriter : Type 0 where
  pub pos : ℕ

-- `WrittenSlot`, with the flag of its `UncommittedSlot`.
pub record WrittenSlot : Type 0 where
  pub pos : ℕ
  pub armed : Bool

module _ {ℓ} {A : Type ℓ} where
  unfoldable pub try_claim : Producer → RingBuffer A → Option (Option ℕ)
  try_claim p r = do free ← is_free p.write_pos r; some (if free then some p.write_pos else none)

  unfoldable pub has_space : Producer → RingBuffer A → Option Bool
  has_space p r = is_free p.write_pos r

  -- `write_pos.set(pos + 1)`, the store of the tail, and the wake.
  unfoldable pub publish : ℕ → RingBuffer A → Producer × RingBuffer A
  publish pos r = (
    record { write_pos = add_usize pos 1 },
    wake_consumer (record r { cursors = Cursors.publish_tail r.cursors (add_usize pos 1) }),
  )

  unfoldable pub push :
      A → Producer → RingBuffer A → Option (PushResult A × Producer × RingBuffer A)
  push v p r = do
    claim ← try_claim p r
    elim claim [
      | none ↦ some (err v, p, r)
      | some pos ↦ do r' ← write_slot pos v r; let (p', r'') = publish pos r'; some (ok, p', r'')
    ]

  unfoldable pub reserve : Producer → RingBuffer A → Option (Option SlotWriter)
  reserve p r = do
    claim ← try_claim p r
    some (elim claim [ none ↦ none | some pos ↦ some (record { pos = pos }) ])

  -- `SlotWriter::write`.
  unfoldable pub write : SlotWriter → A → RingBuffer A → Option (WrittenSlot × RingBuffer A)
  write w v r = do r' ← write_slot w.pos v r; some (record { pos = w.pos; armed = true }, r')

  -- `SlotWriter::commit_unchecked`.
  unfoldable pub commit_unchecked : SlotWriter → RingBuffer A → Producer × RingBuffer A
  commit_unchecked w r = publish w.pos r

  -- The drop of a `WrittenSlot`: its `UncommittedSlot` drops the value in place while it is armed.
  unfoldable pub drop_written : WrittenSlot → RingBuffer A → Option (Option A × RingBuffer A)
  drop_written w r =
      if w.armed then (do (v, r') ← take_slot w.pos r; some (some v, r')) else some (none, r)

  -- `WrittenSlot::commit`: the guard is disarmed before the publication, and dropped at the end.
  unfoldable pub commit : WrittenSlot → RingBuffer A → Option (Producer × RingBuffer A)
  commit w r = do
    let (p, r₁) = publish w.pos r
    (dropped, r₂) ← drop_written (record w { armed = false }) r₁
    some (p, r₂)

  -- `Drop for Producer`.
  unfoldable pub drop_producer : RingBuffer A → RingBuffer A
  drop_producer r = flush_consumers (record r { closed = CloseState.close r.closed })
