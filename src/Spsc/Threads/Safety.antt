-- ===== src/Spsc/Threads/Safety.antt =====
-- Every interleaving of one thread that pushes and one that pops.
use quetzalcoatl.Common.{ℕ, ◌+◌, ◌≤◌, ◌≡◌, ◌≢◌, refl, sym, subst, some, List, [], ◌∷◌, ◌++◌, arith}
use quetzalcoatl.Common.Lists.{length}
use quetzalcoatl.Capacity.{index_of}
use quetzalcoatl.Capacity.Lap.{mod-ne, cap_pos, index_of-word}
use quetzalcoatl.Spsc.Ring.{Spsc}
use quetzalcoatl.Spsc.Repr.{Repr}
use quetzalcoatl.Spsc.Threads.{
  Threads, writing, reading, Turn, push_turn, pop_turn, turn, interleave, start,
}
use quetzalcoatl.Spsc.Threads.Inv.{Inv, start-Inv, base-le}
use quetzalcoatl.Spsc.Threads.PushSteps.{push_step-Inv, place}
use quetzalcoatl.Spsc.Threads.PopSteps.{pop_step-Inv, pop_place}

module _ {ℓ} {A : Type ℓ} where
  turn-Inv : (m : Turn A) (t : Threads A) → Inv t → (t' : Threads A) × (turn m t ≡ some t') × Inv t'
  unfolding turn
  turn-Inv (push_turn v) t i = push_step-Inv t.pushing v t refl i
  turn-Inv pop_turn t i = pop_step-Inv t.popping t refl i

  interleave-Inv :
      (ms : List (Turn A)) (t : Threads A)
      → Inv t
      → (t' : Threads A) × (interleave ms t ≡ some t') × Inv t'
  unfolding interleave
  interleave-Inv [] t i = (t, refl, i)
  interleave-Inv (m ∷ ms) t i =
      let (t1, e1, i1) = turn-Inv m t i in
      let (t2, e2, i2) = interleave-Inv ms t1 i1 in (t2, rw e1 e2, i2)

  Inv-apart :
      (t : Threads A) {pos head : ℕ} {v : A}
      → Inv t
      → t.pushing ≡ writing pos v
      → t.popping ≡ reading head
      → index_of t.spsc.ring.capacity pos ≢ index_of t.spsc.ring.capacity head
  Inv-apart t i e h =
      let (write_at, space, _) = place i e in
      let (same, read_at, seen) = pop_place i h in
      rw
        (
          write_at,
          read_at,
          index_of-word i.items.valid (i.first + length i.queue),
          index_of-word i.items.valid i.first,
        )
        (λ clash.
          mod-ne t.spsc.ring.capacity.cap i.first (i.first + length i.queue) (cap_pos i.items.valid)
            (omega (arith, i.reads.high)) (omega (arith, i.writes.old, base-le i)) (sym clash))

  -- From an empty ring, whatever the order of the steps of the two threads, no step is undefined
  -- behaviour, and the values that the pops have read are the values whose pushes were published, in
  -- order, less the last ones, which wait in the ring.
  pub interleave_fifo :
      (ms : List (Turn A)) (s : Spsc A)
      → Repr s []
      → (t : Threads A) × (interleave ms (start s) ≡ some t)
        × (waiting : List A) × (t.sent ≡ t.received ++ waiting)
        × (length waiting ≤ t.spsc.ring.capacity.cap)
  interleave_fifo ms s r =
      let (t, e, i) = interleave-Inv ms (start s) (start-Inv s r) in
      (t, e, i.queue, i.in_order, i.items.fits)

  -- From an empty ring, no interleaving leads to a state in which the pushing thread is about to write
  -- the slot that the popping thread is about to read.
  pub interleave_race_free :
      (ms : List (Turn A)) (s : Spsc A) (t : Threads A) {pos head : ℕ} {v : A}
      → Repr s []
      → interleave ms (start s) ≡ some t
      → t.pushing ≡ writing pos v
      → t.popping ≡ reading head
      → index_of t.spsc.ring.capacity pos ≢ index_of t.spsc.ring.capacity head
  interleave_race_free ms s t r e writes reads =
      let (t', e', i) = interleave-Inv ms (start s) (start-Inv s r) in
      Inv-apart t (subst Inv (cc (e, e')) i) writes reads
