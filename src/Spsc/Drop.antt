-- ===== src/Spsc/Drop.antt =====
-- The destructors of the consumer and of the ring.
use quetzalcoatl.Common.{
  ℕ, zero, suc, ◌+◌, ◌-◌, ◌%◌, ◌≤◌, ◌<◌, ◌≡◌, ◌≢◌, refl, ap, subst, ◌∙◌, Bool, true, inl, inr, none,
  some, List, [], ◌∷◌, arith,
}
use quetzalcoatl.Common.Tests.{Bool-cases}
use quetzalcoatl.Common.Lists.{length, set}
use quetzalcoatl.Common.Words.{usize_mod}
use quetzalcoatl.Capacity
use quetzalcoatl.Capacity.{IsValid}
use quetzalcoatl.Capacity.Lap.{mod-ne, cap-le, cap_pos}
use quetzalcoatl.Sync.CloseState
use quetzalcoatl.Sync.Cursors
use quetzalcoatl.Sync.Cursors.{Cursors}
use quetzalcoatl.Spsc.Ring.{RingBuffer, Spsc, wake_producer, note_unpark}
use quetzalcoatl.Spsc.Consumer.{emptied, at_limit, drop_close, drop_items, drop_consumer}
use quetzalcoatl.Spsc.RingDrop.{drop_positions, drop_ring}
use quetzalcoatl.Spsc.Queue
use quetzalcoatl.Spsc.Repr.{
  Repr, Stored, Stored-set, take_slot-word, buf-wake_producer, capacity-wake_producer,
  cursors-wake_producer,
}
use quetzalcoatl.Spsc.Pop.{pop_refines}

module _ {ℓ} {A : Type ℓ} (returns : A → Bool) where
  drop_items-refines :
      (fuel : ℕ) (s : Spsc A) (q : List A)
      → length q < fuel
      → Repr s q
      → let (dropped, exit, rest) = Queue.drop_all returns q in
        (s' : Spsc A) × (drop_items fuel returns s ≡ some (dropped, exit, s')) × Repr s' rest
  unfolding drop_items Queue.drop_all Queue.pop
  drop_items-refines zero s q h r = elim h [ ]
  drop_items-refines (suc fuel) s [] h r = let (s', e, r') = pop_refines r in rw e (s', refl, r')
  drop_items-refines (suc fuel) s (v ∷ q) h r =
      let (s', e, r') = pop_refines r in
      elim (Bool-cases (returns v)) [
        | inl kept ↦
            let (t, e', r'') = drop_items-refines fuel s' q (omega arith) r' in
            rw (e, kept) (t, rw e', r'')
        | inr panics ↦ rw (e, panics) (s', refl, r')
      ]

  drop_all-exit : (q : List A) → (Queue.drop_all returns q).1 ≢ at_limit
  unfolding Queue.drop_all
  drop_all-exit [] = cc
  drop_all-exit (v ∷ q) = elim (Bool-cases (returns v)) [
    | inl kept ↦ rw kept (drop_all-exit q)
    | inr panics ↦ rw panics (cc)
  ]

  drop_close-Repr : (s : Spsc A) (q : List A) → Repr s q → Repr (drop_close s) q
  unfolding drop_close
  drop_close-Repr s q r = record {
    first = r.first;
    items = rw (buf-wake_producer, capacity-wake_producer, cursors-wake_producer) r.items;
    writes = rw capacity-wake_producer r.writes;
    reads = r.reads;
  }

  drop_close-closed : (s : Spsc A) → (drop_close s).ring.consumer_closed.closed ≡ true
  unfolding drop_close wake_producer note_unpark CloseState.close
  drop_close-closed s = ground arith

  -- The drop of the consumer drops the items in order until the ring is empty or a destructor panics,
  -- each once, and its loop does end; the ring is then marked closed on the consumer's side, a panic
  -- included, and holds exactly the items that were not dropped.
  pub drop_consumer_refines :
      {s : Spsc A} {q : List A}
      → Repr s q
      → let (dropped, exit, rest) = Queue.drop_all returns q in
        (s' : Spsc A) × (drop_consumer returns s ≡ some (dropped, exit, s'))
        × (exit ≢ at_limit)
        × (s'.ring.consumer_closed.closed ≡ true)
        × Repr s' rest
  unfolding drop_consumer Capacity.get
  drop_consumer_refines {s} {q} r =
      let (s', e, r') =
        drop_items-refines (suc s.ring.capacity.cap) s q (omega (arith, r.items.fits)) r in
      (drop_close s', rw e, drop_all-exit q, drop_close-closed s', drop_close-Repr s' _ r')

occupied-at :
    (c : Cursors) (n k : ℕ)
    → c.head ≡ n
    → c.tail ≡ n + k
    → Cursors.occupied c ≡ Cursors.positions n k
unfolding Cursors.occupied
occupied-at c n k e h = rw (e, h) (ap (Cursors.positions n) (omega arith))

module _ {ℓ} {A : Type ℓ} (returns : A → Bool) where
  -- Dropping the slots of consecutive positions drops the items that they hold, up to a panic, and
  -- leaves the later ones where they are.
  drop_positions-Stored :
      (n : ℕ) (r : RingBuffer A) (q : List A)
      → IsValid r.capacity
      → length q ≤ r.capacity.cap
      → n + length q ≤ usize_mod
      → Stored r.buf r.capacity.cap n q
      → let (dropped, exit, rest) = Queue.drop_all returns q in
        (r' : RingBuffer A) × (drop_positions returns (Cursors.positions n (length q)) r
          ≡ some (dropped, exit, r'))
        × Stored r'.buf r.capacity.cap (n + length dropped) rest
  unfolding drop_positions Cursors.positions Queue.drop_all
  drop_positions-Stored n r [] valid fits top h = (r, refl, tt)
  drop_positions-Stored n r (v ∷ q) valid fits top h =
      let r₁ : RingBuffer A = record r { buf = set r.buf (n % r.capacity.cap) none } in
      let taken = take_slot-word r n n v valid (omega arith) (h.0) in
      let later : Stored r₁.buf r.capacity.cap (suc n) q =
        Stored-set r.buf r.capacity.cap _ (suc n) none q apart (h.1) in
      elim (Bool-cases (returns v)) [
        | inl kept ↦
            let (r', e, left) =
              drop_positions-Stored (suc n) r₁ q valid (omega arith) (omega arith) later in
            rw kept (
              r',
              rw (taken, kept, e),
              subst (λ i. Stored r'.buf r.capacity.cap i (Queue.drop_all returns q).2) (omega arith)
                  left,
            )
        | inr panics ↦ rw panics (
          r₁,
          rw (taken, panics),
          subst (λ i. Stored r₁.buf r.capacity.cap i q) (omega arith) later,
        )
      ]
    where
      apart : (j : ℕ) → j < length q → n % r.capacity.cap ≢ (suc n + j) % r.capacity.cap
      apart j lt = mod-ne r.capacity.cap n (suc n + j) (cap_pos valid) (omega arith) (omega arith)

  -- The drop of a ring drops the items that are left in it in order, each once, until none is left or a
  -- destructor panics, when the positions of its cursors have not wrapped round `usize`. After a panic
  -- the later items are still in their slots: they are leaked with the buffer.
  pub drop_ring_refines :
      {s : Spsc A} {q : List A} (r : Repr s q)
      → r.first + length q < usize_mod
      → let (dropped, exit, rest) = Queue.drop_all returns q in
        (ring : RingBuffer A) × (drop_ring returns s.ring ≡ some (dropped, exit, ring))
        × (exit ≢ at_limit)
        × Stored ring.buf s.ring.capacity.cap (r.first + length dropped) rest
  unfolding drop_ring
  drop_ring_refines {s} {q} r top =
      let (ring, e, left) =
        drop_positions-Stored r.first s.ring q r.items.valid r.items.fits (omega arith)
          r.items.stored in
      (
        ring,
        ap (λ ps. drop_positions returns ps s.ring)
              (occupied-at s.ring.cursors r.first (length q) (r.items.head_at ∙ omega arith)
                (r.items.tail_at ∙ omega arith))
            ∙ e,
        drop_all-exit returns q,
        left,
      )

  -- When the tail has wrapped round `usize` and the head has not, the drop of a ring drops nothing, so
  -- every item left in it is leaked.
  pub drop_ring-wrapped :
      {s : Spsc A} {q : List A} (r : Repr s q)
      → r.first < usize_mod
      → usize_mod ≤ r.first + length q
      → drop_ring returns s.ring ≡ some ([], emptied, s.ring)
  unfolding drop_ring drop_positions Cursors.positions Cursors.occupied
  drop_ring-wrapped {s} {q} r low top = rw none_occupied
    where
      none_occupied : s.ring.cursors.tail - s.ring.cursors.head ≡ 0
      none_occupied =
          omega (arith, r.items.head_at, r.items.tail_at, r.items.fits, cap-le r.items.valid)
