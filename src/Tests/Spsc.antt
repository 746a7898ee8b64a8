-- ===== src/Tests/Spsc.antt =====
-- The theorems at concrete inputs: rings of two slots and of one, a script of calls, an interleaving.

use quetzalcoatl.Common.{
  ℕ, ◌+◌, ◌-◌, ◌^◌, ◌≤◌, ◌≡◌, ◌≢◌, refl, Bool, true, none, some, List, [], ◌∷◌, ◌++◌, arith,
}
use quetzalcoatl.Common.Tests.{ltb}
use quetzalcoatl.Common.Lists.{length}
use quetzalcoatl.Capacity.{index_of, get}
use quetzalcoatl.Capacity.Laws.{of_exponent, of_exponent-IsValid}
use quetzalcoatl.Spsc.Ring.{
  RingBuffer, Spsc, new, split, write_slot, publish_tail, wake_consumer, note_unpark,
}
use quetzalcoatl.Sync.Cursors
use quetzalcoatl.Park.SoleParker
use quetzalcoatl.Spsc.Producer.{
  ok, err, SlotWriter, WrittenSlot, push, reserve, write, commit, try_claim, set_cached_head,
  publish, drop_if_uncommitted,
}
use quetzalcoatl.Spsc.Consumer.{
  available, set_cached_tail, SlotReader, emptied, at_limit, unwound, Drain, drain_up_to, drain,
  pop, pop_ref, drop_reader, drop_consumer,
}
use quetzalcoatl.Spsc.Queue
use quetzalcoatl.Spsc.Repr.{Repr, Stored, split-Repr}
use quetzalcoatl.Spsc.Push.{push_refines}
use quetzalcoatl.Spsc.Pop.{pop_refines}
use quetzalcoatl.Spsc.Reserve.{slot_of, Reserved, reserve_lem, reservation_lem}
use quetzalcoatl.Spsc.Reader.{pop_ref_lem}
use quetzalcoatl.Spsc.Drain.{drain_up_to_refines, drain_refines}
use quetzalcoatl.Spsc.RingDrop.{drop_ring}
use quetzalcoatl.Spsc.Drop.{drop_consumer_refines, drop_ring_refines, drop_ring-wrapped}
use quetzalcoatl.Spsc.Run.{
  send, emplace, abandon, receive, consume_ref, pushed, popped, granted, run, queue_run, queue_call,
  run_refines,
}
use quetzalcoatl.Spsc.Threads.{
  Threads, writing, reading, push_turn, pop_turn, interleave, start, turn, push_step, pop_step,
  claimed, tested,
}
use quetzalcoatl.Spsc.Threads.Safety.{interleave_fifo, interleave_race_free}

abbrev two_slots : Spsc ℕ
two_slots = split (new (of_exponent 1))

two_slots-Repr : Repr two_slots []
two_slots-Repr = split-Repr (of_exponent 1) (of_exponent-IsValid 1 (omega arith))

-- A ring of two slots that holds 7.
abbrev pub one_item : Spsc ℕ
one_item = record {
  ring = record (new (of_exponent 1)) {
    buf = some 7 ∷ none ∷ [];
    cursors = record { head = 0; tail = 1 };
  };
  producer = record { write_pos = 1; cached_head = 0 };
  consumer = record { cached_tail = 0 };
}

pub one_item-Repr : Repr one_item (7 ∷ [])
unfolding new
one_item-Repr = record {
  first = 0;
  items = record {
    valid = of_exponent-IsValid 1 (omega arith);
    storage = refl;
    head_at = refl;
    tail_at = refl;
    fits = omega arith;
    stored = (refl, tt);
  };
  writes = record {
    seen_head = 0;
    write_at = refl;
    cached_at = refl;
    old = omega arith;
    room = omega arith;
  };
  reads = record { seen_tail = 0; cached_at = refl; low = omega arith; high = omega arith };
}

-- A ring of one slot whose tail has just wrapped round `usize`.
abbrev wrapped : Spsc ℕ
wrapped = record {
  ring = record (new (of_exponent 0)) {
    buf = some 7 ∷ [];
    cursors = record { head = 2 ^ 64 - 1; tail = 0 };
  };
  producer = record { write_pos = 0; cached_head = 2 ^ 64 - 1 };
  consumer = record { cached_tail = 0 };
}

wrapped-Repr : Repr wrapped (7 ∷ [])
unfolding new
wrapped-Repr = record {
  first = 2 ^ 64 - 1;
  items = record {
    valid = of_exponent-IsValid 0 (omega arith);
    storage = refl;
    head_at = refl;
    tail_at = refl;
    fits = omega arith;
    stored = (refl, tt);
  };
  writes = record {
    seen_head = 2 ^ 64 - 1;
    write_at = refl;
    cached_at = refl;
    old = omega arith;
    room = omega arith;
  };
  reads = record { seen_tail = 2 ^ 64; cached_at = refl; low = omega arith; high = omega arith };
}

push_refines_example : (s : Spsc ℕ) × (push 8 one_item ≡ some (ok, s)) × Repr s (7 ∷ 8 ∷ [])
unfolding Queue.push new
push_refines_example = push_refines 8 one_item-Repr

pop_refines_example : (s : Spsc ℕ) × (pop one_item ≡ some (some 7, s)) × Repr s []
unfolding Queue.pop
pop_refines_example = pop_refines one_item-Repr

run_refines_example :
    (s : Spsc ℕ) × (run
        (send 1 ∷ emplace 2 ∷ send 3 ∷ receive ∷ abandon 4 ∷ consume_ref ∷ receive ∷ [])
        two_slots
      ≡ some (
        pushed ok
            ∷ pushed ok
            ∷ pushed (err 3)
            ∷ popped (some 1)
            ∷ granted true
            ∷ popped (some 2)
            ∷ popped none
            ∷ [],
        s,
      ))
    × Repr s []
unfolding queue_run queue_call Queue.push Queue.pop new split
run_refines_example =
    run_refines (send 1 ∷ emplace 2 ∷ send 3 ∷ receive ∷ abandon 4 ∷ consume_ref ∷ receive ∷ [])
      two_slots-Repr

-- A reservation of the second slot.
abbrev reserved_one :
    (w : SlotWriter) × (s : Spsc ℕ) × (reserve one_item ≡ (some w, s)) × Reserved w s (7 ∷ [])
unfolding new
reserved_one = (reserve_lem one_item-Repr).0 (omega arith)

reservation_lem_example :
    (k : WrittenSlot) × (s : Spsc ℕ) × (write reserved_one.0 8 reserved_one.1 ≡ some (k, s))
    × ((t : Spsc ℕ) × (commit k s ≡ some t) × Repr t (7 ∷ 8 ∷ []))
    × ((t : Spsc ℕ) × (drop_if_uncommitted k s ≡ some (some 8, t))
        × (slot_of reserved_one.0.pos t ≡ some none)
        × Repr t (7 ∷ []))
    × (slot_of reserved_one.0.pos s ≡ some (some 8))
    × Repr s (7 ∷ [])
reservation_lem_example = reservation_lem 8 reserved_one.0 reserved_one.3

pop_ref_lem_example :
    (reader : SlotReader) × (s : Spsc ℕ) × (pop_ref one_item ≡ (some reader, s))
    × Repr s (7 ∷ [])
    × ((t : Spsc ℕ) × (drop_reader reader s ≡ some (7, t)) × Repr t [])
pop_ref_lem_example = pop_ref_lem one_item-Repr

-- A callback that adds up what it is given, and panics past 6.
abbrev summing : ℕ → ℕ → ℕ × Bool
summing sum v = (sum + v, ltb v 7)

drain_up_to_refines_example :
    (d : Drain ℕ ℕ) × (drain_up_to summing 1 5 one_item ≡ some d)
    × (d.state ≡ 12)
    × (d.count ≡ 1)
    × (d.exit ≡ unwound)
    × Repr d.spsc []
unfolding Queue.feed
drain_up_to_refines_example = drain_up_to_refines summing 1 5 one_item-Repr

drain_refines_example :
    (d : Drain ℕ ℕ) × (drain summing 5 one_item ≡ some d)
    × (d.state ≡ 12)
    × (d.count ≡ 1)
    × (d.exit ≡ unwound)
    × (d.exit ≢ at_limit)
    × Repr d.spsc []
unfolding Queue.feed new
drain_refines_example = drain_refines summing 5 one_item-Repr

drop_consumer_refines_example :
    (s : Spsc ℕ) × (drop_consumer (λ v. ltb v 7) one_item ≡ some (7 ∷ [], unwound, s))
    × (unwound ≢ at_limit)
    × (s.ring.consumer_closed.closed ≡ true)
    × Repr s []
unfolding Queue.drop_all
drop_consumer_refines_example = drop_consumer_refines (λ v. ltb v 7) one_item-Repr

-- The destructor of 7 returns, that of 8 panics, and 9 stays in its slot.
abbrev three_items : Spsc ℕ
three_items = record {
  ring = record (new (of_exponent 2)) {
    buf = some 7 ∷ some 8 ∷ some 9 ∷ none ∷ [];
    cursors = record { head = 0; tail = 3 };
  };
  producer = record { write_pos = 3; cached_head = 0 };
  consumer = record { cached_tail = 3 };
}

three_items-Repr : Repr three_items (7 ∷ 8 ∷ 9 ∷ [])
unfolding new
three_items-Repr = record {
  first = 0;
  items = record {
    valid = of_exponent-IsValid 2 (omega arith);
    storage = refl;
    head_at = refl;
    tail_at = refl;
    fits = omega arith;
    stored = (refl, (refl, (refl, tt)));
  };
  writes = record {
    seen_head = 0;
    write_at = refl;
    cached_at = refl;
    old = omega arith;
    room = omega arith;
  };
  reads = record { seen_tail = 3; cached_at = refl; low = omega arith; high = omega arith };
}

drop_ring_refines_example :
    (ring : RingBuffer ℕ) × (drop_ring (λ v. ltb v 8) three_items.ring
      ≡ some (7 ∷ 8 ∷ [], unwound, ring))
    × (unwound ≢ at_limit)
    × Stored ring.buf 4 2 (9 ∷ [])
unfolding three_items-Repr new Queue.drop_all
drop_ring_refines_example = drop_ring_refines (λ v. ltb v 8) three_items-Repr (omega arith)

drop_ring-wrapped_example : drop_ring (λ v. ltb v 7) wrapped.ring ≡ some ([], emptied, wrapped.ring)
unfolding wrapped-Repr
drop_ring-wrapped_example =
    drop_ring-wrapped (λ v. ltb v 7) wrapped-Repr (omega arith) (omega arith)

interleave_fifo_example :
    (t : Threads ℕ) × (interleave
        (push_turn 5
          ∷ pop_turn
          ∷ push_turn 5
          ∷ push_turn 5
          ∷ pop_turn
          ∷ push_turn 6
          ∷ pop_turn
          ∷ [])
        (start two_slots)
      ≡ some t)
    × (waiting : List ℕ) × (t.sent ≡ t.received ++ waiting)
    × (length waiting ≤ t.spsc.ring.capacity.cap)
interleave_fifo_example =
    interleave_fifo
      (push_turn 5 ∷ pop_turn ∷ push_turn 5 ∷ push_turn 5 ∷ pop_turn ∷ push_turn 6 ∷ pop_turn ∷ [])
      two_slots two_slots-Repr

-- One value is in the ring; the pusher is about to write the second, the popper to read the first.
abbrev both_at_slots : Threads ℕ
both_at_slots = record {
  spsc = record one_item { consumer = record { cached_tail = 1 } };
  pushing = writing 1 8;
  popping = reading 0;
  sent = 7 ∷ [];
  received = [];
}

both_at_slots-reached :
    interleave
      (push_turn 7 ∷ push_turn 7 ∷ push_turn 7 ∷ push_turn 8 ∷ pop_turn ∷ [])
      (start two_slots)
    ≡ some both_at_slots
unfolding interleave turn push_step pop_step claimed tested start new split try_claim
    set_cached_head write_slot publish publish_tail Cursors.publish_tail wake_consumer note_unpark
    SoleParker.wake_published available set_cached_tail get index_of
both_at_slots-reached = refl

interleave_race_free_example : index_of (of_exponent 1) 1 ≢ index_of (of_exponent 1) 0
unfolding new
interleave_race_free_example =
    interleave_race_free (push_turn 7 ∷ push_turn 7 ∷ push_turn 7 ∷ push_turn 8 ∷ pop_turn ∷ [])
      two_slots both_at_slots {v = 8} two_slots-Repr both_at_slots-reached refl refl
