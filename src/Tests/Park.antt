-- ===== src/Tests/Park.antt =====
-- The theorems on parking at concrete inputs.
use quetzalcoatl.Common.{ℕ, ◌≤◌, ◌≡◌, ◌↔◌, refl, false, true, none, some, List, [], ◌∷◌, ◌++◌}
use quetzalcoatl.Common.Lists.{replicate}
use quetzalcoatl.Sync.Backoff.{spin_unless_exhausted, is_exhausted, spin}
use quetzalcoatl.Park.ThreadParker
use quetzalcoatl.Park.ThreadParker.{Thread}
use quetzalcoatl.Park.SoleParker
use quetzalcoatl.Park.ParkRegistry
use quetzalcoatl.Park.ParkRegistry.{
  ParkRegistry, leased, shared, park_slots, lease, release, first_clear,
}
use quetzalcoatl.Park.ParkRegistry.Leases.{
  none_yet, leasing, releasing, holders, leases, leases_exclusive,
}
use quetzalcoatl.Park.WakeSet.{
  WakeSet, search, drain_overflow, wake_slot, retire, wake_loop, wake_one_published, wake_n, flush,
}
use quetzalcoatl.Common.Tests.{◌==◌, if◌then◌else◌}
use quetzalcoatl.Park.WakeSet.Interest.{WakeInterest, reserved, any, wake_one_interested}
use quetzalcoatl.Park.WakeSet.Preference.{Prefers, wake_one_interested-Prefers}
use quetzalcoatl.Park.WakeSet.Reach.{Reachable}
use quetzalcoatl.Park.WakeSet.Wakes.{Delivers, wakes-Deliver}
use quetzalcoatl.Park.Blocking.{
  Turn, wait, publish, wake, try_then, spin_then, wait_step, wake_step, publish_step, close_step,
  close, turn, run, start,
}
use quetzalcoatl.Park.Blocking.Account.{account}
use quetzalcoatl.Park.Blocking.Answer.{run_returns_none}
use quetzalcoatl.Park.Blocking.Wakeup.{run_no_lost_wake, run_wakes}

-- The steps of a waiter that finds nothing, spins twelve times, arms, tests again and parks.
abbrev until_parked : List (Turn ℕ)
until_parked = replicate 43 wait

run_no_lost_wake_example :
    ((run 1 until_parked start).items ≡ []) × ((run 1 until_parked start).closed ≡ false)
unfolding run turn wait_step try_then spin_then spin_unless_exhausted is_exhausted spin
    SoleParker.publish_handle SoleParker.set_parked ThreadParker.arm
run_no_lost_wake_example = run_no_lost_wake 1 until_parked refl refl refl

run_wakes_example :
    (run 1 (wake ∷ wake ∷ wake ∷ []) (run 1 (until_parked ++ (publish 7 ∷ [])) start)).token ≡ true
unfolding run turn wait_step publish_step try_then spin_then spin_unless_exhausted is_exhausted spin
    SoleParker.publish_handle SoleParker.set_parked ThreadParker.arm
run_wakes_example = run_wakes 1 (until_parked ++ (publish 7 ∷ [])) refl refl

-- 5 is published and returned, the ring is closed, a call finds it empty, and 7 is published after that.
abbrev closed_then_7 : List (Turn ℕ)
closed_then_7 = publish 5 ∷ wake ∷ wait ∷ wait ∷ close ∷ wake ∷ wait ∷ wait ∷ wait ∷ publish 7 ∷ []

run_returns_none_example :
    ((run 1 closed_then_7 start).closed ≡ true)
    × (late : List ℕ) × (5 ∷ [] ≡ (5 ∷ []) ++ late)
    × (7 ∷ [] ≡ late ++ (run 1 closed_then_7 start).items)
unfolding run account turn wait_step wake_step publish_step close_step try_then
run_returns_none_example = run_returns_none 1 closed_then_7 refl

left_after_close : (run 1 closed_then_7 start).items ≡ 7 ∷ []
unfolding run turn wait_step wake_step publish_step close_step try_then
left_after_close = refl

-- Waiters at slots 1 and 3, a stale bit at slot 2, and one thread on the overflow stack.
abbrev parked : WakeSet
parked = record {
  bits = false ∷ true ∷ true ∷ true ∷ replicate 60 false;
  parkers =
      record { handle = none }
      ∷ record { handle = some 10 }
      ∷ record { handle = none }
      ∷ record { handle = some 30 }
      ∷ replicate 60 ThreadParker.fresh;
  cursor = 2;
  overflow = 90 ∷ [];
}

-- The wake passes the stale bit and reaches the waiter at slot 3.
parked_woken : (wake_one_published parked).1 ≡ 90 ∷ 30 ∷ []
unfolding wake_one_published drain_overflow wake_loop search retire wake_slot ThreadParker.wake
parked_woken = refl

wakes-Deliver_example :
    Delivers 1 parked (wake_one_published parked)
    × Delivers 5 parked (wake_n 5 parked)
    × Delivers park_slots parked (flush parked)
    × ((c : ℕ) (u : Thread) → ¬ Reachable (flush parked).0 c u)
wakes-Deliver_example = wakes-Deliver 5 parked refl

-- The waiter at slot 3 reserved the position; the others take any.
abbrev wants : ℕ → WakeInterest
wants c = if c == 3 then reserved else any

wake_one_interested-Prefers_example : Prefers wants parked (wake_one_interested wants parked)
wake_one_interested-Prefers_example = wake_one_interested-Prefers wants parked refl

abbrev two_leases : ParkRegistry
two_leases = (lease (lease ParkRegistry.fresh).1).1

leases_exclusive_example :
    ((i : ℕ) → holders i (leased 1 ∷ []) ≤ 1)
    × (((lease (release (leased 0) two_leases)).0 ≡ shared) ↔ (leases (leased 1 ∷ []) ≡ park_slots))
unfolding lease first_clear
leases_exclusive_example =
    leases_exclusive (releasing (leased 1 ∷ []) (leased 0) [] (leasing (leasing none_yet)))
