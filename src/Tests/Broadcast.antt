-- ===== src/Tests/Broadcast.antt =====
-- The theorems of the broadcast ring at concrete inputs: a ring of two slots and two consumers.
use quetzalcoatl.Common.{
  ℕ, zero, suc, ◌+◌, ◌≤◌, ◌<◌, ◌≡◌, ◌⊎◌, refl, true, false, Option, none, some, List, [], ◌∷◌,
  arith,
}
use quetzalcoatl.Capacity.Laws.{of_exponent, of_exponent-IsValid}
use quetzalcoatl.Park.ParkRegistry
use quetzalcoatl.Park.WakeSet
use quetzalcoatl.Slot.State
use quetzalcoatl.Slot.State.{published_word, abandoned_word}
use quetzalcoatl.Broadcast.Floor
use quetzalcoatl.Broadcast.Floor.{
  cache_permits, permits, at, shared_fresh, cache_permits-permits, refresh,
}
use quetzalcoatl.Broadcast.Registry.{
  ConsumerRegistry, IsFloor, floor, floor_of, floor-IsFloor, any_subscribed, any_active, head_of,
  publish_head_past, update_seat,
}
use quetzalcoatl.Mpsc.Board.{update}
use quetzalcoatl.Spsc.Ring.{◌>>=◌}
use quetzalcoatl.Spsc.Producer.{PushResult, ok, err}
use quetzalcoatl.Park.ParkRegistry.{shared}
use quetzalcoatl.Broadcast.Producer
use quetzalcoatl.Broadcast.Producer.{
  push, claim_slot, claim_loop, may_claim, permits_with_refresh, swap_tail, take_over, write_slot,
}
use quetzalcoatl.Capacity.{index_of, get}
use quetzalcoatl.Broadcast.Claim.{Cached}
use quetzalcoatl.Broadcast.Push.{push-Logged}
use quetzalcoatl.Broadcast.Ring.{
  RingBuffer, Consumer, consumer_floor, slot, prior_occupant_resolved, take_value, update_slot,
  slot_classify, wake_producer,
}
use quetzalcoatl.Broadcast.Consumer.{
  Popped, returned, unwound, pop, advance_head, seek_value, seek, head_at, classify_at,
}
use quetzalcoatl.Broadcast.Ring
use quetzalcoatl.Broadcast.Log.{Logged, SlotOf}
use quetzalcoatl.Broadcast.Pop.{Moved, pop-next}

-- The caches say 0, the floor is 2, and position 4 has room in a ring of 4 slots only for the latter.
cache_permits-permits_example :
    let (answer, c', s') = cache_permits Floor.fresh 4 4 true shared_fresh (at 2) in
    (answer ≡ permits (at 2) 4 4) × (c'.private_ ≤ 2) × (s'.head ≤ 2)
cache_permits-permits_example =
    cache_permits-permits Floor.fresh shared_fresh true 4 4 2 (omega arith) (omega arith)

abbrev two_seats : ConsumerRegistry
two_seats = record {
  slots = record { head = 1; active = true } ∷ record { head = 0; active = true } ∷ [];
}

floor-IsFloor_example : IsFloor (at 0) two_seats.slots
unfolding floor floor_of
floor-IsFloor_example = floor-IsFloor two_seats

-- Position 0 was given up, 8 was published at position 1.
abbrev given_up_then_8 : RingBuffer ℕ
given_up_then_8 = record {
  buf =
      record { data_ = none; sequence = record { at = 2 } }
      ∷ record { data_ = some 8; sequence = record { at = 3 } }
      ∷ [];
  capacity = of_exponent 1;
  consumers = two_seats;
  tail = 2;
  min_head_cache = shared_fresh;
  producer_park = WakeSet.fresh;
  producer_park_slots = ParkRegistry.fresh;
  unparked = [];
}

abbrev log : ℕ → Option ℕ
log zero = none
log (suc p) = some 8

given_up_then_8-Logged : Logged log given_up_then_8
unfolding published_word abandoned_word
given_up_then_8-Logged = record {
  valid = of_exponent-IsValid 1 (omega arith);
  small = omega arith;
  slots = slots;
  unreached = λ p from to. let out : ⊥ = omega arith in absurd out;
}
  where
    slots : (p : ℕ) → p < 2 → 2 ≤ p + 2 → SlotOf given_up_then_8.buf 2 p (log p)
    slots zero lo hi = record {
      here = record { data_ = none; sequence = record { at = 2 } };
      found = refl;
      holds = (refl, tt);
    }
    slots (suc zero) lo hi = record {
      here = record { data_ = some 8; sequence = record { at = 3 } };
      found = refl;
      holds = (refl, refl);
    }
    slots (suc (suc p)) lo hi = let out : ⊥ = omega arith in absurd out

-- The second consumer passes position 0 and receives the clone of 8.
pop-next_example :
    (r' : RingBuffer ℕ) × (pop some (record { slot_index = 1 }) given_up_then_8
      ≡ some (returned (some 8), r'))
    × Moved (record { slot_index = 1 }) given_up_then_8 r' 2
    × Logged log r'
pop-next_example =
    pop-next log some (record { slot_index = 1 }) given_up_then_8 0 given_up_then_8-Logged
      (record { seat = record { head = 0; active = true }; found = refl; here = refl })
      (omega arith) (omega arith)

-- The clone of 8 panics: the consumer is past its position all the same, and finds nothing after it.
abbrev clone_panics : Option (Popped ℕ × Popped ℕ)
clone_panics = do
  (a, r₁) ← pop (λ v. none) (record { slot_index = 1 }) given_up_then_8
  (b, r₂) ← pop some (record { slot_index = 1 }) r₁
  some (a, b)

clone_panics_once : clone_panics ≡ some (unwound, returned none)
unfolding pop seek_value seek get head_at head_of classify_at slot index_of slot_classify
    State.classify State.classify_as State.holds_value State.decode advance_head publish_head_past
    update_seat wake_producer
clone_panics_once = refl

-- The same slots, where both consumers have passed position 0.
abbrev half_read : RingBuffer ℕ
half_read = record given_up_then_8 {
  consumers = record {
    slots = record { head = 1; active = true } ∷ record { head = 1; active = true } ∷ [];
  };
}

half_read-Logged : Logged log half_read
half_read-Logged = record {
  valid = given_up_then_8-Logged.valid;
  small = given_up_then_8-Logged.small;
  slots = given_up_then_8-Logged.slots;
  unreached = given_up_then_8-Logged.unreached;
}

abbrev pusher : Ring.Producer
pusher = record { floor_cache = Floor.fresh; park_slot = shared }

half_read-Cached : Cached pusher half_read 1
unfolding consumer_floor floor floor_of
half_read-Cached = record { own = omega arith; shared_ = omega arith; scan = refl }

push-Logged_example :
    (dropped : List ℕ) × (p' : Ring.Producer) × (r' : RingBuffer ℕ) × (((2 < 1 + 2)
        × (push true (λ v. true) 1 9 pusher half_read ≡ some (some ok, dropped, p', r'))
        × (r'.tail ≡ 3)
        × Logged (update log 2 (some 9)) r')
      ⊎ ((1 + 2 ≤ 2)
          × (push true (λ v. true) 1 9 pusher half_read ≡ some (some (err 9), dropped, p', r'))
          × (r'.tail ≡ 2)
          × Logged log r'))
    × (r'.consumers ≡ half_read.consumers)
    × Cached p' r' 1
push-Logged_example =
    push-Logged log true 1 9 pusher half_read 1 half_read-Logged half_read-Cached (omega arith)
      (omega arith)

-- Both slots hold values that every consumer has read. The destructor of the value at position 0 panics
-- when position 2 is claimed: the position is never published nor given up, the next push takes the other
-- slot, the one after that is refused, and no consumer gets past position 2.
abbrev all_read : RingBuffer ℕ
all_read = record half_read {
  buf =
      record { data_ = some 7; sequence = record { at = 1 } }
      ∷ record { data_ = some 8; sequence = record { at = 3 } }
      ∷ [];
  consumers = record { slots = record { head = 2; active = true } ∷ [] };
}

abbrev stranded :
    Option (Option (PushResult ℕ) × Option (PushResult ℕ) × Option (PushResult ℕ) × Popped ℕ)
stranded = do
  (a, dropped₁, p₁, r₁) ← push true (λ v. false) 0 9 pusher all_read
  (b, dropped₂, p₂, r₂) ← push true (λ v. true) 0 10 p₁ r₁
  (c, dropped₃, p₃, r₃) ← push true (λ v. true) 0 11 p₂ r₂
  (v, r₄) ← pop some (record { slot_index = 0 }) r₃
  some (a, b, c, v)

stranded-stuck : stranded ≡ some (none, some ok, some (err 11), returned none)
unfolding push claim_slot claim_loop may_claim slot permits_with_refresh index_of cache_permits
    any_subscribed any_active permits get refresh Floor.publish consumer_floor floor floor_of
    prior_occupant_resolved Producer.publish swap_tail take_over write_slot take_value update_slot
    State.claim_taking_previous State.decode State.holds_value State.is_claim_in_progress
    State.publish published_word pop seek_value seek head_at head_of classify_at slot_classify
    State.classify State.classify_as
stranded-stuck = refl
