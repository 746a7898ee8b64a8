-- ===== src/Spsc/RingDrop.antt =====
-- src/spsc/mod.rs: `Drop for RingBuffer<T>`. `returns` says of each value whether its destructor returns;
-- a panic leaves the loop, and the buffer is freed without the destructors of what is still in it.
use quetzalcoatl.Common.{ℕ, Bool, Option, some, List, [], ◌∷◌}
use quetzalcoatl.Common.Tests.{if◌then◌else◌}
use quetzalcoatl.Sync.Cursors
use quetzalcoatl.Spsc.Ring.{RingBuffer, ◌>>=◌, take_slot}
use quetzalcoatl.Spsc.Consumer.{Exit, emptied, unwound}

module _ {ℓ} {A : Type ℓ} where
  -- Drops the value of each position in turn: the values whose destructors ran, in that order, and how
  -- the loop ended.
  unfoldable pub drop_positions :
      (A → Bool) → List ℕ → RingBuffer A → Option (List A × Exit × RingBuffer A)
  drop_positions returns [] r = some ([], emptied, r)
  drop_positions returns (pos ∷ rest) r = do
    (v, r') ← take_slot pos r
    if returns v
        then (do (vs, exit, r'') ← drop_positions returns rest r'; some (v ∷ vs, exit, r''))
        else some (v ∷ [], unwound, r')

  unfoldable pub drop_ring : (A → Bool) → RingBuffer A → Option (List A × Exit × RingBuffer A)
  drop_ring returns r = drop_positions returns (Cursors.occupied r.cursors) r
