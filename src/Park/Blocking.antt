-- ===== src/Park/Blocking.antt =====
-- src/common/single_parker.rs: `pop_block`, cut at its accesses to shared memory, against a peer that
-- publishes items and may close, each followed by `SoleParker::wake_published`. All accesses are
-- taken in one total order.
pub mod Promise
pub mod Peer
pub mod Waiter
pub mod Wakeup
pub mod Account
pub mod Answer
use quetzalcoatl.Common.{ℕ, Bool, true, false, Option, none, some, List, [], ◌∷◌, ◌++◌}
use quetzalcoatl.Common.Tests.{◌==◌, if◌then◌else◌}
use quetzalcoatl.Park.ThreadParker.{Thread}
use quetzalcoatl.Park.SoleParker
use quetzalcoatl.Park.SoleParker.{SoleParker}
use quetzalcoatl.Sync.Backoff
use quetzalcoatl.Sync.Backoff.{Backoff, spin_unless_exhausted}

-- Where the waiter stands in `pop_block`: `retrying` and `rechecking` are the tests after the arm,
-- `found` and `leaving` the disarms before a return, `waking` the one after the park, and `draining`
-- the last try once the peer is gone. After `returned` the waiter may call again.
pub data Waiting {ℓ} (A : Type ℓ) : Type ℓ where
  trying : Backoff → Waiting A
  checking : Backoff → Waiting A
  spinning : Backoff → Waiting A
  arming : Backoff → Waiting A
  setting : Backoff → Waiting A
  retrying : Backoff → Waiting A
  rechecking : Backoff → Waiting A
  parking : Backoff → Waiting A
  waking : Backoff → Waiting A
  found : A → Waiting A
  leaving : Waiting A
  draining : Waiting A
  returned : Option A → Waiting A

-- Where the peer stands: between two publications, or in `wake_published` before the load of the flag,
-- before its clear, or before the swap of the handle.
pub data Waker : Type 0 where
  idle loading clearing claiming : Waker

-- `items` and `closed` are what `try_pop` and `producer_gone` see. `token` is the waiter's: `unpark`
-- sets it and `park` returns when it is set, taking it.
pub record Site {ℓ} (A : Type ℓ) : Type ℓ where
  pub items : List A
  pub closed : Bool
  pub park : SoleParker
  pub token : Bool
  pub waiter : Waiting A
  pub peer : Waker

-- One step of the waiter, a return of `park` without a token, a publication or a close by a peer that is
-- idle, or one step of its wake.
pub data Turn {ℓ} (A : Type ℓ) : Type ℓ where
  wait spurious : Turn A
  publish : A → Turn A
  close wake : Turn A

-- The waiter's token after an unpark.
unfoldable pub unparks : Thread → Option Thread → Bool → Bool
unparks me none token = token
unparks me (some t) token = if t == me then true else token

module _ {ℓ} {A : Type ℓ} where
  unfoldable pub try_then : (A → Waiting A) → Waiting A → List A → Site A → Site A
  try_then hit miss [] s = record s { waiter = miss }
  try_then hit miss (v ∷ q) s = record s { items = q; waiter = hit v }

  unfoldable pub spin_then : Backoff × Bool → Waiting A
  spin_then (b, more) = if more then trying b else arming b

  -- `me` is the thread of the waiter.
  unfoldable pub wait_step : Thread → Waiting A → Site A → Site A
  wait_step me (trying b) s = try_then (λ v. returned (some v)) (checking b) s.items s
  wait_step me (checking b) s = record s { waiter = if s.closed then draining else spinning b }
  wait_step me (spinning b) s = record s { waiter = spin_then (spin_unless_exhausted b) }
  wait_step me (arming b) s = record s {
    park = SoleParker.publish_handle me s.park;
    waiter = setting b;
  }
  wait_step me (setting b) s = record s { park = SoleParker.set_parked s.park; waiter = retrying b }
  wait_step me (retrying b) s = try_then found (rechecking b) s.items s
  wait_step me (rechecking b) s = record s { waiter = if s.closed then leaving else parking b }
  wait_step me (parking b) s = if s.token then record s { token = false; waiter = waking b } else s
  wait_step me (waking b) s = record s { park = SoleParker.disarm s.park; waiter = trying b }
  wait_step me (found v) s = record s {
    park = SoleParker.disarm s.park;
    waiter = returned (some v);
  }
  wait_step me leaving s = record s { park = SoleParker.disarm s.park; waiter = draining }
  wait_step me draining s = try_then (λ v. returned (some v)) (returned none) s.items s
  wait_step me (returned r) s = record s { waiter = trying Backoff.fresh }

  -- A return of `park` with no token.
  unfoldable pub spurious_step : Waiting A → Site A → Site A
  spurious_step (parking b) s = record s { waiter = waking b }
  spurious_step w s = s

  unfoldable pub wake_step : Thread → Waker → Site A → Site A
  wake_step me idle s = s
  wake_step me loading s = record s { peer = if s.park.parked then clearing else idle }
  wake_step me clearing s = record s { park = SoleParker.disarm s.park; peer = claiming }
  wake_step me claiming s =
      let (park, thread) = SoleParker.claim_handle s.park in
      record s { park = park; token = unparks me thread s.token; peer = idle }

  unfoldable pub publish_step : A → Waker → Site A → Site A
  publish_step v idle s = record s { items = s.items ++ (v ∷ []); peer = loading }
  publish_step v w s = s

  -- The end of the peer's handle, or a close of the ring, which pushes may follow.
  unfoldable pub close_step : Waker → Site A → Site A
  close_step idle s = record s { closed = true; peer = loading }
  close_step w s = s

  unfoldable pub turn : Thread → Turn A → Site A → Site A
  turn me wait s = wait_step me s.waiter s
  turn me spurious s = spurious_step s.waiter s
  turn me (publish v) s = publish_step v s.peer s
  turn me close s = close_step s.peer s
  turn me wake s = wake_step me s.peer s

  unfoldable pub run : Thread → List (Turn A) → Site A → Site A
  run me [] s = s
  run me (m ∷ ms) s = run me ms (turn me m s)

  abbrev pub start : Site A
  start = record {
    items = [];
    closed = false;
    park = SoleParker.fresh;
    token = false;
    waiter = trying Backoff.fresh;
    peer = idle;
  }
