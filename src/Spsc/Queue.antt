-- ===== src/Spsc/Queue.antt =====
-- What the ring promises: a queue of at most `cap` items, the oldest first.
use quetzalcoatl.Common.{ℕ, zero, suc, Bool, Option, none, some, List, [], ◌∷◌, ◌++◌}
use quetzalcoatl.Common.Tests.{ltb, if◌then◌else◌}
use quetzalcoatl.Common.Lists.{length}
use quetzalcoatl.Spsc.Producer.{PushResult, ok, err}
use quetzalcoatl.Spsc.Consumer.{Exit, emptied, at_limit, unwound}

module _ {ℓ} {A : Type ℓ} where
  unfoldable pub push : ℕ → A → List A → PushResult A × List A
  push cap v q = if ltb (length q) cap then (ok, q ++ (v ∷ [])) else (err v, q)

  unfoldable pub pop : List A → Option A × List A
  pop [] = (none, [])
  pop (v ∷ q) = (some v, q)

  -- Dropping every item in turn, until a destructor panics: the values dropped, the end, and the rest.
  unfoldable pub drop_all : (A → Bool) → List A → List A × Exit × List A
  drop_all returns [] = ([], emptied, [])
  drop_all returns (v ∷ q) =
      let rest = drop_all returns q in
      if returns v then (v ∷ rest.0, rest.1, rest.2) else (v ∷ [], unwound, q)

-- The items handed to a callback, which may panic: its state, the number of items, the end, and what is
-- left in the queue.
module _ {ℓ κ} {A : Type ℓ} {S : Type κ} (f : S → A → S × Bool) where
  unfoldable pub feed : (limit : ℕ) → S → ℕ → List A → S × ℕ × Exit × List A
  feed zero st count q = (st, count, at_limit, q)
  feed (suc limit) st count [] = (st, count, emptied, [])
  feed (suc limit) st count (v ∷ q) =
      let rest = feed limit (f st v).0 (suc count) q in
      if (f st v).1 then rest else ((f st v).0, suc count, unwound, q)
