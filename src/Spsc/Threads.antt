-- ===== src/Spsc/Threads.antt =====
-- One thread that pushes and one that pops, interleaved in any order: the code of `push` and of `pop`
-- cut at each access to a slot and at each store of a shared cursor. A step holds at most one access
-- to the other thread's cursor; all accesses are taken in one total order.
pub mod Inv
pub mod PushSteps
pub mod PopSteps
pub mod Safety
use quetzalcoatl.Common.{ℕ, Bool, true, false, Option, none, some, List, [], ◌∷◌, ◌++◌}
use quetzalcoatl.Common.Tests.{if◌then◌else◌}
use quetzalcoatl.Common.Words.{add_usize}
use quetzalcoatl.Spsc.Ring.{Spsc, ◌>>=◌, write_slot, take_slot}
use quetzalcoatl.Spsc.Producer.{try_claim, publish}
use quetzalcoatl.Spsc.Consumer.{available, release}

-- Where `push` stands: before the claim, before the write of the slot, before the store of the tail.
pub data Pushing {ℓ} (A : Type ℓ) : Type ℓ where
  claiming : Pushing A
  writing : ℕ → A → Pushing A
  publishing : ℕ → A → Pushing A

-- Where `pop` stands: before the test, before the read of the slot, before the store of the head.
pub data Popping : Type 0 where
  testing : Popping
  reading : ℕ → Popping
  releasing : ℕ → Popping

-- `sent` and `received` record the values whose push was published and those that a pop has read.
pub record Threads {ℓ} (A : Type ℓ) : Type ℓ where
  pub spsc : Spsc A
  pub pushing : Pushing A
  pub popping : Popping
  pub sent : List A
  pub received : List A

-- Which thread moves next; a push that begins pushes the value given.
pub data Turn {ℓ} (A : Type ℓ) : Type ℓ where
  push_turn : A → Turn A
  pop_turn : Turn A

module _ {ℓ} {A : Type ℓ} where
  -- The claim's outcome: a push of a full ring returns, and the thread may push again.
  unfoldable pub claimed : A → Threads A → Option ℕ × Spsc A → Threads A
  claimed v t (none, s) = record t { spsc = s }
  claimed v t (some pos, s) = record t { spsc = s; pushing = writing pos v }

  -- The next step of the pushing thread; `v` is what it pushes if it begins a push.
  unfoldable pub push_step : Pushing A → A → Threads A → Option (Threads A)
  push_step claiming v t = some (claimed v t (try_claim t.spsc))
  push_step (writing pos w) v t = do
    ring ← write_slot pos w t.spsc.ring
    some (record t { spsc = record (t.spsc) { ring = ring }; pushing = publishing pos w })
  push_step (publishing pos w) v t =
      some (record t { spsc = publish pos t.spsc; pushing = claiming; sent = t.sent ++ (w ∷ []) })

  unfoldable pub tested : ℕ → Threads A → Bool × Spsc A → Threads A
  tested head t (true, s) = record t { spsc = s; popping = reading head }
  tested head t (false, s) = record t { spsc = s }

  unfoldable pub pop_step : Popping → Threads A → Option (Threads A)
  pop_step testing t =
      let head = t.spsc.ring.cursors.head in some (tested head t (available head t.spsc))
  pop_step (reading head) t = do
    (v, ring) ← take_slot head t.spsc.ring
    some (record t {
      spsc = record (t.spsc) { ring = ring };
      popping = releasing head;
      received = t.received ++ (v ∷ []);
    })
  pop_step (releasing head) t =
      some (record t { spsc = release (add_usize head 1) t.spsc; popping = testing })

  unfoldable pub turn : Turn A → Threads A → Option (Threads A)
  turn (push_turn v) t = push_step t.pushing v t
  turn pop_turn t = pop_step t.popping t

  unfoldable pub interleave : List (Turn A) → Threads A → Option (Threads A)
  interleave [] t = some t
  interleave (m ∷ ms) t = do t' ← turn m t; interleave ms t'

  unfoldable pub start : Spsc A → Threads A
  start s = record { spsc = s; pushing = claiming; popping = testing; sent = []; received = [] }
