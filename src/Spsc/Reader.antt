-- ===== src/Spsc/Reader.antt =====
-- The zero-copy read of the spsc consumer: `pop_ref`, and the drop of the reader that it returns.
use quetzalcoatl.Common.{ℕ, suc, ◌≡◌, true, false, none, some, List, [], ◌∷◌, arith}
use quetzalcoatl.Common.Words.{word}
use quetzalcoatl.Spsc.Ring.{RingBuffer, Spsc, take_slot}
use quetzalcoatl.Spsc.Consumer.{
  SlotReader, advance, available, release, drop_publisher, pop_ref, drop_reader,
}
use quetzalcoatl.Spsc.Repr.{Repr}
use quetzalcoatl.Spsc.Pop.{
  Repr-Draining, Draining-Repr, available-ring, available-empty, available-some, available-Draining,
  take_slot-Draining, taken-Draining, release-Repr, next_word,
}

module _ {ℓ} {A : Type ℓ} where
  -- The body of `pop_ref` at a loaded head, in its two cases.
  pop_ref-some :
      (s : Spsc A) {head : ℕ}
      → s.ring.cursors.head ≡ head
      → (available head s).0 ≡ true
      → pop_ref s ≡ (some (record { head = head }), (available head s).1)
  unfolding pop_ref
  pop_ref-some s e h = ground arith

  pop_ref-none :
      (s : Spsc A) {head : ℕ}
      → s.ring.cursors.head ≡ head
      → (available head s).0 ≡ false
      → pop_ref s ≡ (none, (available head s).1)
  unfolding pop_ref
  pop_ref-none s e h = ground arith

  drop_reader-some :
      (n : ℕ) (s : Spsc A) {v : A} {ring : RingBuffer A}
      → take_slot (word n) s.ring ≡ some (v, ring)
      → drop_reader (record { head = word n }) s
        ≡ some (v, release (word (suc n)) (record s { ring = ring }))
  unfolding drop_reader drop_publisher advance
  drop_reader-some n s e = rw (next_word n, e)

  -- From an empty ring `pop_ref` lends nothing.
  pub pop_ref_empty :
      {s : Spsc A} → Repr s [] → (s' : Spsc A) × (pop_ref s ≡ (none, s')) × Repr s' []
  pop_ref_empty {s} r = (
    _,
    pop_ref-none s r.items.head_at (available-empty (Repr-Draining r)),
    Draining-Repr (available-Draining (Repr-Draining r)) (rw available-ring r.items.head_at),
  )

  -- From a ring with items `pop_ref` lends the oldest one and the ring still holds it; the drop of the
  -- reader is defined, drops that item, and leaves the ring holding the rest.
  pub pop_ref_lem :
      {s : Spsc A} {v : A} {q : List A}
      → Repr s (v ∷ q)
      → (reader : SlotReader) × (s' : Spsc A) × (pop_ref s ≡ (some reader, s'))
        × Repr s' (v ∷ q)
        × ((t : Spsc A) × (drop_reader reader s' ≡ some (v, t)) × Repr t q)
  pop_ref_lem {s} {v} {q} r =
      let d = Repr-Draining r in
      (
        record { head = word r.first },
        (available (word r.first) s).1,
        pop_ref-some s r.items.head_at (available-some d),
        Draining-Repr (available-Draining d) (rw available-ring r.items.head_at),
        (
          _,
          drop_reader-some r.first _ (take_slot-Draining r.first s v q d),
          release-Repr (suc r.first) _ q (taken-Draining r.first s v q d),
        ),
      )
