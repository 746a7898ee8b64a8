-- ===== src/Tests/Spmc.antt =====
-- The theorems of the spmc ring at concrete inputs: rings of two slots.
use quetzalcoatl.Common.{
  ℕ, zero, suc, ◌%◌, ◌≤◌, ◌<◌, ◌≡◌, ◌≢◌, refl, Bool, true, false, none, some, Option, List, [], ◌∷◌,
  arith,
}
use quetzalcoatl.Common.Tests.{◌==◌, if◌then◌else◌}
use quetzalcoatl.Common.Lists.{get_elem?}
use quetzalcoatl.Capacity.{index_of, get}
use quetzalcoatl.Capacity.Laws.{of_exponent, of_exponent-IsValid}
use quetzalcoatl.Sync.Cursors
use quetzalcoatl.Park.ParkRegistry.{shared}
use quetzalcoatl.Park.SoleParker
use quetzalcoatl.Park.WakeSet.{wake_one_published, wake_loop, search, drain_overflow}
use quetzalcoatl.Slot.Done
use quetzalcoatl.Slot.Done.{released_for, is_free_for}
use quetzalcoatl.Spsc.Consumer.{emptied}
use quetzalcoatl.Spsc.Ring.{◌>>=◌}
use quetzalcoatl.Mpsc.Board.{update}
use quetzalcoatl.Spmc.Ring.{
  RingBuffer, Consumer, consumer_with, new, words_from, data_slot, done_slot, write_slot, take_slot,
  is_free, release_slot, wake_producer, wake_consumer, is_empty,
}
use quetzalcoatl.Spmc.Producer.{try_claim, publish, push}
use quetzalcoatl.Spmc.Consumer.{claim_batch, claim_slot, swap_head, read_at, pop, drop_consumer}
use quetzalcoatl.Spmc.Ledger.{unsent, sent, claim_range, reads, published, IsOwned, Kept}
use quetzalcoatl.Spmc.Drop.{Batch, values_at, drop_consumer-wakes}
use quetzalcoatl.Spmc.Threads.{
  Handle, Threads, Turn, produce, consume, Popping, idle, heading, comparing, swapping, reading,
  writing, turn, push_step, pop_step, swapped, move, put, interleave, start,
}
use quetzalcoatl.Spmc.Threads.Safety.{
  producer, consumer, interleave_partition, interleave_one_owner,
}

-- The producer pushes 7, handle 0 claims it, and the producer is about to write 8.
abbrev script : List (Turn ℕ)
script =
    produce 7 false
    ∷ produce 7 false
    ∷ produce 7 false
    ∷ consume 0 false
    ∷ consume 0 false
    ∷ consume 0 false
    ∷ consume 0 false
    ∷ produce 8 false
    ∷ []

interleave_partition_example :
    (t : Threads ℕ) × (interleave script (start (new (of_exponent 1))) ≡ some t)
    × (t.pushed ≡ published t.fate t.ring.cursors.tail)
    × ((i : ℕ) → t.received i ≡ reads i t.fate t.ring.cursors.head)
    × ((p : ℕ) → p < t.ring.cursors.head → IsOwned (t.fate p))
    × ((p : ℕ) → t.ring.cursors.head ≤ p → p < t.ring.cursors.tail → (v : ℕ) × (t.fate p ≡ sent v))
    × (t.ring.cursors.head ≤ t.ring.cursors.tail)
interleave_partition_example =
    interleave_partition script (of_exponent 1) (of_exponent-IsValid 1 (omega arith)) (omega arith)

abbrev handle_at : ℕ → Popping → Handle
handle_at seen place = record {
  consumer = record (consumer_with shared) { cached_tail = seen };
  place = place;
}

abbrev both_at_slots : Threads ℕ
both_at_slots = record {
  ring = record (new (of_exponent 1)) {
    storage = some 7 ∷ none ∷ [];
    cursors = record { head = 1; tail = 1 };
  };
  producer = record { write_pos = 1 };
  pushing = writing 1 8;
  handles =
      update
        (update
          (update (update (λ i. handle_at 0 idle) 0 (handle_at 0 heading)) 0
            (handle_at 0 (comparing 0)))
          0 (handle_at 1 (swapping 0)))
        0
        (record {
          consumer = record { cached_tail = 1; batch_next = 1; batch_end = 1; park_slot = shared };
          place = reading 0;
        });
  fate = claim_range 0 0 1 (update (λ p. unsent) 0 (sent 7));
  received = λ i. [];
  pushed = 7 ∷ [];
}

both_at_slots-reached : interleave script (start (new (of_exponent 1))) ≡ some both_at_slots
unfolding interleave turn push_step pop_step swapped move put start new words_from released_for
    is_free is_free_for done_slot data_slot write_slot publish wake_consumer swap_head
    Cursors.publish_tail Cursors.publish_head get index_of wake_one_published wake_loop search
    drain_overflow
both_at_slots-reached = refl

interleave_one_owner_example : index_of (of_exponent 1) 1 ≢ index_of (of_exponent 1) 0
unfolding new
interleave_one_owner_example =
    interleave_one_owner script (of_exponent 1) both_at_slots producer (consumer 0)
      (of_exponent-IsValid 1 (omega arith)) (omega arith) both_at_slots-reached (λ e. cc e) refl
      refl

-- Two live handles share a ring of two slots; one of them has claimed 5 and 6, and read 5. The producer
-- sleeps until a slot is given back.
abbrev asleep : RingBuffer ℕ
asleep = record (new (of_exponent 1)) {
  storage = none ∷ some 6 ∷ [];
  done = record { at = 0 } ∷ record { at = 1 } ∷ [];
  cursors = record { head = 2; tail = 2 };
  consumer_count_live = record { live = 2 };
}

abbrev holder : Consumer
holder = record { cached_tail = 2; batch_next = 1; batch_end = 2; park_slot = shared }

asleep-Batch : Batch asleep (λ p. 6) 1 1
unfolding new
asleep-Batch = record { valid = of_exponent-IsValid 1 (omega arith); words = refl; held = held }
  where
    held : (p : ℕ) → 1 ≤ p → p < 2 → Kept asleep.storage asleep.done 2 p (some 6)
    held zero from to = elim from [ ]
    held (suc zero) from to = record { word_at = refl; value_at = refl }
    held (suc (suc p)) from to = let out : ⊥ = omega arith in absurd out

drop_consumer-wakes_example :
    (r' : RingBuffer ℕ) × (drop_consumer (λ v. true) holder asleep
      ≡ some (values_at (λ p. 6) 1 1, emptied, r'))
    × ((p : ℕ)
        → 1 ≤ p
        → p < 2
        → get_elem? r'.done (p % asleep.capacity.cap)
          ≡ some (Done.release p asleep.capacity (record { at = p })))
    × (r'.unparked ≡ (if 2 == 1 then (wake_producer asleep).unparked else asleep.unparked))
    × (r'.producer_park
        ≡ (if 2 == 1 then (wake_producer asleep).producer_park else asleep.producer_park))
    × (r'.consumer_closed.closed ≡ (if 2 == 1 then true else asleep.consumer_closed.closed))
drop_consumer-wakes_example = drop_consumer-wakes holder asleep (λ p. 6) (omega arith) asleep-Batch

-- Two pushes and one pop: the ring says that it is empty, and the next pop answers with the second value.
abbrev observed : Option (Option ℕ × Bool × Option ℕ)
observed = do
  let r₀ = new (of_exponent 1)
  (e₁, p₁, r₁) ← push 7 (record { write_pos = 0 }) r₀
  (e₂, p₂, r₂) ← push 8 p₁ r₁
  (v, c, r₃) ← pop 0 (consumer_with shared) r₂
  (w, c', r₄) ← pop 0 c r₃
  some (v, is_empty r₃, w)

observed-batch : observed ≡ some (some 7, true, some 8)
unfolding push pop try_claim new words_from released_for is_free is_free_for done_slot data_slot
    write_slot take_slot release_slot publish wake_consumer wake_producer claim_slot claim_batch
    swap_head read_at is_empty Cursors.is_empty Cursors.publish_tail Cursors.publish_head get
    index_of wake_one_published wake_loop search drain_overflow SoleParker.wake Done.release
observed-batch = refl
