-- ===== src/Tests/Mpsc.antt =====
-- The theorems of the mpsc ring at concrete inputs: two handles and the consumer on a ring of two slots.
use quetzalcoatl.Common.{
  ℕ, not, zero, suc, Bool, ◌∙◌, ◌+◌, ◌≤◌, ◌<◌, ◌≡◌, ◌≢◌, ◌⊎◌, ◌↔◌, refl, true, false, none, some,
  Option, List, [], ◌∷◌, ◌++◌, arith,
}
use quetzalcoatl.Common.Lists.{replicate}
use quetzalcoatl.Capacity.{index_of, get}
use quetzalcoatl.Capacity.Laws.{of_exponent, of_exponent-IsValid}
use quetzalcoatl.Sync.Cursors
use quetzalcoatl.Park.ParkRegistry.{shared}
use quetzalcoatl.Park.SoleParker
use quetzalcoatl.Slot.Sequence
use quetzalcoatl.Slot.Sequence.{free_at, slot_free_at, slot_classify, classify}
use quetzalcoatl.Mpsc.Ring.{
  RingBuffer, new, slots_from, slot, update_slot, write_slot, publish_slot, release_slot, take_slot,
  wake_consumer, wake_producer, publish_head,
}
use quetzalcoatl.Mpsc.Producer.{check_room, swap_tail, publish}
use quetzalcoatl.Mpsc.Consumer.{classify_at}
use quetzalcoatl.Slot.Sequence.{tombstone_word}
use quetzalcoatl.Spsc.Queue
use quetzalcoatl.Spsc.Consumer.{emptied, unwound}
use quetzalcoatl.Spsc.Producer.{PushResult}
use quetzalcoatl.Mpsc.Ring.{Producer}
use quetzalcoatl.Mpsc.Producer.{push}
use quetzalcoatl.Mpsc.Consumer.{pop, Drain, drain_up_to, drop_consumer}
use quetzalcoatl.Mpsc.Board.{At, dead, update-ne}
use quetzalcoatl.Mpsc.Repr.{Items}
use quetzalcoatl.Mpsc.Pop.{Popped, pop-Popped}
use quetzalcoatl.Mpsc.Push.{Pushed, push-Pushed}
use quetzalcoatl.Common.Tests.{◌==◌}
use quetzalcoatl.Mpsc.Drop.{drop_consumer-waiting}
use quetzalcoatl.Mpsc.Drain.{Waiting, stops, gone, next, drain_up_to-waiting}
use quetzalcoatl.Mpsc.Room.{check_room_iff}
use quetzalcoatl.Mpsc.Board.{Fate, IsSettled, unclaimed, pending, sent, update, values}
use quetzalcoatl.Mpsc.Threads.{
  Handle, Threads, Turn, produce, consume, Pushing, resting, checking, swapping, writing,
  publishing, reading, turn, push_step, pop_step, checked, swapped, tested, move, put, interleave,
  start,
}
use quetzalcoatl.Mpsc.Threads.Safety.{
  handle, consumer, taken, interleave_claim_order, interleave_exclusive,
}

-- Handle 0 pushes 7, handle 1 claims the next slot, and the consumer finds the value at the head.
abbrev script : List (Turn ℕ)
script =
    produce 0 7 false
    ∷ produce 0 7 false
    ∷ produce 0 7 false
    ∷ produce 0 7 false
    ∷ produce 0 7 false
    ∷ produce 1 8 false
    ∷ produce 1 8 false
    ∷ produce 1 8 false
    ∷ consume
    ∷ []

interleave_claim_order_example :
    (t : Threads ℕ) × (interleave script (start (new (of_exponent 1))) ≡ some t)
    × (t.received ≡ values t.fate (taken t))
    × ((p : ℕ) → p < taken t → IsSettled (t.fate p))
    × (t.ring.cursors.head ≤ t.ring.cursors.tail)
    × (t.ring.cursors.tail ≤ t.ring.cursors.head + t.ring.capacity.cap)
interleave_claim_order_example =
    interleave_claim_order script (of_exponent 1) (of_exponent-IsValid 1 (omega arith))
      (omega arith)

abbrev handle_at : Pushing ℕ → Handle ℕ
handle_at place = record {
  producer = record { cached_head = 0; park_slot = shared };
  place = place;
}

-- The moves of handle `i` that pushes `v` at `pos`, up to the write.
abbrev claimed_by : ℕ → ℕ → ℕ → (ℕ → Handle ℕ) → ℕ → Handle ℕ
claimed_by i pos v hs =
    update (update (update hs i (handle_at (checking pos v))) i (handle_at (swapping pos v))) i
      (handle_at (writing pos v))

abbrev pushed_by : ℕ → ℕ → ℕ → (ℕ → Handle ℕ) → ℕ → Handle ℕ
pushed_by i pos v hs =
    update (update (claimed_by i pos v hs) i (handle_at (publishing pos v))) i (handle_at resting)

abbrev sent_by : ℕ → ℕ → ℕ → (ℕ → Fate ℕ) → ℕ → Fate ℕ
sent_by i pos v f =
    update (update (update f pos (pending i none)) pos (pending i (some v))) pos (sent v)

abbrev both_at_slots : Threads ℕ
both_at_slots = record {
  ring = record (new (of_exponent 1)) {
    buf =
        record { storage = some 7; sequence = record { at = 1 } }
        ∷ record { storage = none; sequence = record { at = 2 } }
        ∷ [];
    cursors = record { head = 0; tail = 2 };
  };
  handles = claimed_by 1 1 8 (pushed_by 0 0 7 (λ i. handle_at resting));
  popping = reading 0;
  fate = update (sent_by 0 0 7 (λ p. unclaimed)) 1 (pending 1 none);
  received = [];
}

both_at_slots-reached : interleave script (start (new (of_exponent 1))) ≡ some both_at_slots
unfolding interleave turn push_step pop_step checked swapped tested move put start new slots_from
    slot_free_at free_at check_room swap_tail write_slot publish publish_slot wake_consumer slot
    update_slot classify_at slot_classify classify Sequence.publish SoleParker.wake
    SoleParker.wake_published Cursors.publish_tail get index_of
both_at_slots-reached = refl

interleave_exclusive_example : index_of (of_exponent 1) 1 ≢ index_of (of_exponent 1) 0
unfolding new
interleave_exclusive_example =
    interleave_exclusive script (of_exponent 1) both_at_slots (handle 1) consumer
      (of_exponent-IsValid 1 (omega arith)) (omega arith) both_at_slots-reached (λ e. cc e) refl
      refl

-- A ring of one slot that is empty at head 2; a producer that loaded its tail at 1 is told that it is full.
abbrev passed : RingBuffer ℕ
passed = record (new (of_exponent 0)) { cursors = record { head = 2; tail = 2 } }

check_room_iff_example :
    ((check_room 1 (record { cached_head = 0; park_slot = shared }) passed).0 ≡ true)
    ↔ (1 < 0 + 1) ⊎ ((2 ≤ 1) × (1 < 2 + 1))
unfolding new
check_room_iff_example =
    check_room_iff 1 (record { cached_head = 0; park_slot = shared }) passed
      (of_exponent-IsValid 0 (omega arith)) (omega arith) (omega arith) (omega arith)

-- On a ring of two slots that never holds more than one value: after two values passed, handle 0 loads
-- the tail; handle 1 pushes and the consumer pops; then handle 0 tests for room.
abbrev push_turns : ℕ → ℕ → List (Turn ℕ)
push_turns i v = replicate 5 (produce i v false)

abbrev passes : ℕ → List (Turn ℕ)
passes v = push_turns 1 v ++ replicate 4 consume

abbrev overtaken : List (Turn ℕ)
overtaken = passes 6 ++ passes 7 ++ (produce 0 9 false ∷ []) ++ passes 8 ++ (produce 0 9 false ∷ [])

abbrev place_of : Option (Threads ℕ) → Option (Pushing ℕ × ℕ × ℕ)
place_of none = none
place_of (some t) = some ((t.handles 0).place, t.ring.cursors.head, t.ring.cursors.tail)

-- It gives up its push, on an empty ring.
overtaken-refused :
    place_of (interleave overtaken (start (new (of_exponent 1)))) ≡ some (resting, 3, 3)
unfolding interleave turn push_step pop_step checked swapped tested move put start new slots_from
    slot_free_at free_at check_room swap_tail write_slot publish publish_slot wake_consumer slot
    take_slot release_slot update_slot classify_at slot_classify classify Sequence.publish
    Sequence.release SoleParker.wake SoleParker.wake_published Cursors.publish_tail get index_of
    wake_producer publish_head Cursors.publish_head
overtaken-refused = refl

-- A ring of two slots: the first position was given up, 8 was published at the second.
abbrev given_up_then_8 : RingBuffer ℕ
given_up_then_8 = record (new (of_exponent 1)) {
  buf =
      record { storage = none; sequence = record { at = tombstone_word } }
      ∷ record { storage = some 8; sequence = record { at = 3 } }
      ∷ [];
  cursors = record { head = 0; tail = 2 };
}

abbrev fates : ℕ → Fate ℕ
fates = update (update (λ p. unclaimed) 0 dead) 1 (sent 8)

given_up_then_8-Items : Items fates given_up_then_8
unfolding new
given_up_then_8-Items = record {
  valid = of_exponent-IsValid 1 (omega arith);
  storage = refl;
  small = omega arith;
  low = omega arith;
  room = omega arith;
  slots = slots;
  ahead = λ p le.
      update-ne (update (λ p. unclaimed) 0 dead) 1 p (sent 8) (omega arith)
      ∙ update-ne (λ p. unclaimed) 0 p dead (omega arith);
}
  where
    slots : (p : ℕ) → 0 ≤ p → p < 2 → At given_up_then_8.buf 2 (fates p) p
    slots zero lo hi = record {
      here = record { storage = none; sequence = record { at = tombstone_word } };
      found = refl;
      holds = (refl, tt);
    }
    slots (suc zero) lo hi = record {
      here = record { storage = some 8; sequence = record { at = 3 } };
      found = refl;
      holds = (refl, refl);
    }
    slots (suc (suc p)) lo hi = let out : ⊥ = omega arith in absurd out

pop-Popped_example :
    (o : Option ℕ × RingBuffer ℕ) × (pop given_up_then_8 ≡ some o) × Popped fates given_up_then_8 o
pop-Popped_example = pop-Popped given_up_then_8 given_up_then_8-Items

push-Pushed_example :
    (o : PushResult ℕ) × (p' : Producer) × (r' : RingBuffer ℕ) × (push 2 9
        (record { cached_head = 0; park_slot = shared })
        given_up_then_8
      ≡ some (o, p', r'))
    × (p'.cached_head ≤ 0)
    × Pushed fates 9 given_up_then_8 o r'
unfolding new
push-Pushed_example =
    push-Pushed 2 9 (record { cached_head = 0; park_slot = shared }) given_up_then_8
      given_up_then_8-Items (omega arith) (omega arith)

-- A callback that adds up the values and never panics.
abbrev add_up : ℕ → ℕ → ℕ × Bool
add_up sum v = (sum + v, true)

drain_up_to-waiting_example :
    (d : Drain ℕ ℕ) × (drain_up_to add_up 5 1 given_up_then_8 ≡ some d)
    × (d.state ≡ 9)
    × (d.batch.delivered ≡ 1)
    × (d.exit ≡ emptied)
    × Items fates d.ring
    × Waiting fates d.ring.cursors.head []
unfolding Queue.feed
drain_up_to-waiting_example =
    drain_up_to-waiting add_up 5 1 given_up_then_8 given_up_then_8-Items
      (gone refl (next refl (stops (λ s. s))))

-- A destructor that panics on 8.
abbrev returns_but_8 : ℕ → Bool
returns_but_8 v = not (v == 8)

drop_consumer-waiting_example :
    (r' : RingBuffer ℕ) × (drop_consumer returns_but_8 given_up_then_8 ≡ some (8 ∷ [], unwound, r'))
    × Items fates r'
    × Waiting fates r'.cursors.head []
unfolding Queue.drop_all
drop_consumer-waiting_example =
    drop_consumer-waiting returns_but_8 given_up_then_8 given_up_then_8-Items
      (gone refl (next refl (stops (λ s. s))))
