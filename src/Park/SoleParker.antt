-- ===== src/Park/SoleParker.antt =====
-- src/common/sole_parker.rs: the park state of a side with one waiter.
use quetzalcoatl.Common.{Bool, true, false, Option, none}
use quetzalcoatl.Common.Tests.{if◌then◌else◌}
use quetzalcoatl.Park.ThreadParker
use quetzalcoatl.Park.ThreadParker.{Thread, ThreadParker}

pub record SoleParker : Type 0 where
  pub parker : ThreadParker
  pub parked : Bool

abbrev pub fresh : SoleParker
fresh = record { parker = ThreadParker.fresh; parked = false }

-- The two stores of `arm`, in their order; the fence after them is no step under sequential
-- consistency.
unfoldable pub publish_handle : Thread → SoleParker → SoleParker
unfolding ThreadParker.arm
publish_handle me p = record p { parker = ThreadParker.arm me p.parker }

unfoldable pub set_parked : SoleParker → SoleParker
set_parked p = record p { parked = true }

unfoldable pub arm : Thread → SoleParker → SoleParker
unfolding publish_handle set_parked
arm me p = set_parked (publish_handle me p)

unfoldable pub disarm : SoleParker → SoleParker
disarm p = record p { parked = false }

unfoldable pub claim_handle : SoleParker → SoleParker × Option Thread
unfolding ThreadParker.wake
claim_handle p =
    let (parker, unparked) = ThreadParker.wake p.parker in (record p { parker = parker }, unparked)

-- The park state afterwards, and the thread that is unparked.
unfoldable pub wake_published : SoleParker → SoleParker × Option Thread
unfolding disarm claim_handle
wake_published p = if p.parked then claim_handle (disarm p) else (p, none)

-- `wake` is `wake_published` behind a fence.
unfoldable pub wake : SoleParker → SoleParker × Option Thread
unfolding wake_published
wake p = wake_published p

unfoldable pub is_parked : SoleParker → Bool
is_parked p = p.parked
