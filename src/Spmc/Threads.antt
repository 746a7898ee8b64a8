-- ===== src/Spmc/Threads.antt =====
-- The producer and any number of consumer handles of an spmc ring, interleaved in any order: the code of
-- `push`, of a reservation, of `Drop for Producer` and of `pop`, cut at its accesses to shared cells. A
-- step holds at most one access to a cell that another thread writes, and the wake-up that follows it, in
-- one total order of all accesses.
pub mod Inv
pub mod Frame
pub mod PushSteps
pub mod Looks
pub mod Claims
pub mod PopSteps
pub mod Safety
use quetzalcoatl.Common.{ℕ, Bool, true, false, Option, none, some, List, [], ◌∷◌, ◌++◌}
use quetzalcoatl.Common.Tests.{leb, ltb, if◌then◌else◌}
use quetzalcoatl.Sync.CloseState
use quetzalcoatl.Park.ParkRegistry.{shared}
use quetzalcoatl.Spsc.Ring.{◌>>=◌}
use quetzalcoatl.Mpsc.Board.{update}
use quetzalcoatl.Spmc.Ring.{
  RingBuffer, Producer, Consumer, consumer_with, write_slot, take_slot, is_free, release_slot,
  wake_producer,
}
use quetzalcoatl.Spmc.Producer.{publish, drop_producer}
use quetzalcoatl.Spmc.Consumer.{
  batch_after, take_batch, next_claimed, step_batch, see_tail, swap_head,
}
use quetzalcoatl.Spmc.Ledger.{Fate, unsent, sent, taken, give, claim_range}

-- Where the producer stands: between two pushes; before the write of its slot, and before the publication
-- of a written one; dropped.
pub data Pushing {ℓ} (A : Type ℓ) : Type ℓ where
  resting : Pushing A
  writing : ℕ → A → Pushing A
  publishing : ℕ → A → Pushing A
  gone : Pushing A

-- Where a consumer stands: between two calls; before the load of the head; with the head that it has
-- loaded; before the test for a closed ring; before the second load of the tail, and of the head; before
-- the swap of the head; before the read of a claimed position, and before its release.
pub data Popping : Type 0 where
  idle : Popping
  heading : Popping
  comparing : ℕ → Popping
  closing : Popping
  rechecking : Popping
  reheading : Popping
  swapping : ℕ → Popping
  reading : ℕ → Popping
  releasing : ℕ → Popping

pub record Handle : Type 0 where
  pub consumer : Consumer
  pub place : Popping

-- `fate`, `received` and `pushed` record what became of each position, the values that each consumer has
-- read, and the values that the producer has published.
-- Every number is a consumer handle; one that has not moved is a clone that was just made.
pub record Threads {ℓ} (A : Type ℓ) : Type ℓ where
  pub ring : RingBuffer A
  pub producer : Producer
  pub pushing : Pushing A
  pub handles : ℕ → Handle
  pub fate : ℕ → Fate A
  pub received : ℕ → List A
  pub pushed : List A

-- Which thread moves next. A push that begins pushes the value given; `detour` has a reservation given up
-- instead of written or published. `close` drops the producer, where it is between two pushes. `spurious`
-- makes a weak compare-and-swap fail for no reason.
pub data Turn {ℓ} (A : Type ℓ) : Type ℓ where
  produce : (v : A) → (detour : Bool) → Turn A
  close : Turn A
  consume : (handle : ℕ) → (spurious : Bool) → Turn A

-- After a load of the tail.
abbrev pub looked : Consumer → (h : ℕ) → Handle
looked c h = record { consumer = c; place = if leb c.cached_tail h then closing else swapping h }

module _ {ℓ} {A : Type ℓ} where
  -- The next step of the producer.
  unfoldable pub push_step : Pushing A → A → Bool → Threads A → Option (Threads A)
  push_step resting v detour t = do
    free ← is_free t.producer.write_pos t.ring
    some (record t { pushing = if free then writing t.producer.write_pos v else resting })
  push_step (writing pos w) v true t = some (record t { pushing = resting })
  push_step (writing pos w) v false t = do
    r ← write_slot pos w t.ring
    some (record t { ring = r; pushing = publishing pos w })
  push_step (publishing pos w) v true t = do
    (dropped, r) ← take_slot pos t.ring
    some (record t { ring = r; pushing = resting })
  push_step (publishing pos w) v false t = do
    let (p, r) = publish pos t.ring
    some (record t {
      ring = r;
      producer = p;
      pushing = resting;
      fate = update t.fate pos (sent w);
      pushed = t.pushed ++ (w ∷ []);
    })
  push_step gone v detour t = some t

  unfoldable pub close_step : Pushing A → Threads A → Threads A
  close_step resting t = record t { ring = drop_producer t.ring; pushing = gone }
  close_step (writing pos w) t = t
  close_step (publishing pos w) t = t
  close_step gone t = t

  unfoldable pub put : ℕ → Handle → Threads A → Threads A
  put i h t = record t { handles = update t.handles i h }

  unfoldable pub move : ℕ → Popping → Threads A → Threads A
  move i place t = put i (record (t.handles i) { place = place }) t

  unfoldable pub swapped :
      ℕ → (h new_head : ℕ) → Consumer → Threads A → Bool × RingBuffer A → Threads A
  swapped i h new_head c t (true, r) =
      put i (record { consumer = take_batch h new_head c; place = reading h })
        (record t { ring = r; fate = claim_range i h new_head t.fate })
  swapped i h new_head c t (false, r) =
      put i (record { consumer = c; place = heading }) (record t { ring = r })

  -- The next step of consumer handle `i`.
  unfoldable pub pop_step : ℕ → Popping → Bool → Threads A → Option (Threads A)
  pop_step i idle spurious t =
      let c = (t.handles i).consumer in
      some (elim (next_claimed c) [
        | some pos ↦ put i (record { consumer = step_batch c; place = reading pos }) t
        | none ↦ move i heading t
      ])
  pop_step i heading spurious t = some (move i (comparing t.ring.cursors.head) t)
  pop_step i (comparing h) spurious t =
      let c = (t.handles i).consumer in
      some (
        if ltb h c.cached_tail
        then move i (swapping h) t
        else put i (looked (see_tail c t.ring) h) t)
  pop_step i closing spurious t =
      some (move i (if CloseState.is_closed t.ring.closed then rechecking else idle) t)
  pop_step i rechecking spurious t =
      some
        (put i (record { consumer = see_tail (t.handles i).consumer t.ring; place = reheading }) t)
  pop_step i reheading spurious t =
      let c = (t.handles i).consumer in
      some (move i (if leb c.cached_tail t.ring.cursors.head then idle else heading) t)
  pop_step i (swapping h) true t = some (move i heading t)
  pop_step i (swapping h) false t =
      let c = (t.handles i).consumer in
      let new_head = batch_after h c.cached_tail in
      some (swapped i h new_head c t (swap_head h new_head t.ring))
  pop_step i (reading p) spurious t = do
    (v, r) ← take_slot p t.ring
    some (
        move i (releasing p) (record t {
          ring = r;
          fate = update t.fate p (taken i v);
          received = update t.received i (t.received i ++ (v ∷ []));
        }))
  pop_step i (releasing p) spurious t = do
    r ← release_slot p t.ring
    some (
        move i idle (record t { ring = wake_producer r; fate = update t.fate p (give (t.fate p)) }))

  unfoldable pub turn : Turn A → Threads A → Option (Threads A)
  turn (produce v detour) t = push_step t.pushing v detour t
  turn close t = some (close_step t.pushing t)
  turn (consume i spurious) t = pop_step i (t.handles i).place spurious t

  unfoldable pub interleave : List (Turn A) → Threads A → Option (Threads A)
  interleave [] t = some t
  interleave (m ∷ ms) t = do t' ← turn m t; interleave ms t'

  unfoldable pub start : RingBuffer A → Threads A
  start r = record {
    ring = r;
    producer = record { write_pos = 0 };
    pushing = resting;
    handles = λ i. record { consumer = consumer_with shared; place = idle };
    fate = λ p. unsent;
    received = λ i. [];
    pushed = [];
  }
