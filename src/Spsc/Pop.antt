-- ===== src/Spsc/Pop.antt =====
-- The consumer's operations on a ring that holds a queue.
use quetzalcoatl.Common.{
  ℕ, suc, ◌+◌, ◌%◌, ◌<◌, ◌≡◌, ◌≢◌, refl, ap, ◌∙◌, true, false, inl, inr, none, some, List, [], ◌∷◌,
  arith,
}
use quetzalcoatl.Common.Tests.{◌==◌, if◌then◌else◌, Bool-cases}
use quetzalcoatl.Common.Lists.{length, set, length-set}
use quetzalcoatl.Common.Words.{word, add_usize}
use quetzalcoatl.Capacity.Lap.{mod-ne, cap-le, cap_pos}
use quetzalcoatl.Sync.Cursors
use quetzalcoatl.Sync.Cursors.{Cursors}
use quetzalcoatl.Spsc.Ring.{RingBuffer, Spsc, take_slot, publish_head}
use quetzalcoatl.Spsc.Consumer.{available, set_cached_tail, release, pop_at, pop}
use quetzalcoatl.Spsc.Queue
use quetzalcoatl.Spsc.Repr.{
  Repr, Items, Writes, Reads, Stored-set, take_slot-word, buf-wake_producer, capacity-wake_producer,
  cursors-wake_producer,
}

pub next_word : (n : ℕ) → add_usize (word n) 1 ≡ word (suc n)
next_word n = omega arith

module _ {ℓ} {A : Type ℓ} where
  -- A ring whose items from position `n` on are left, while its head may not be published yet.
  pub record Draining (n : ℕ) (s : Spsc A) (q : List A) : Type ℓ where
    pub items : Items s.ring.buf s.ring.capacity (record (s.ring.cursors) { head = word n }) n q
    pub writes : Writes s.producer s.ring.capacity.cap n (n + length q)
    pub reads : Reads s.consumer n (n + length q)

  pub Repr-Draining : {s : Spsc A} {q : List A} (r : Repr s q) → Draining r.first s q
  Repr-Draining r = record {
    items = record {
      valid = r.items.valid;
      storage = r.items.storage;
      head_at = refl;
      tail_at = r.items.tail_at;
      fits = r.items.fits;
      stored = r.items.stored;
    };
    writes = r.writes;
    reads = r.reads;
  }

  pub available-ring : (n : ℕ) (s : Spsc A) → (available n s).1.ring ≡ s.ring
  unfolding available set_cached_tail
  available-ring n s = ground arith

  pub available-producer : (n : ℕ) (s : Spsc A) → (available n s).1.producer ≡ s.producer
  unfolding available set_cached_tail
  available-producer n s = ground arith

  available-consumer :
      (head : ℕ) (s : Spsc A)
      → (available head s).1.consumer ≡ (
          if head == s.consumer.cached_tail
          then record { cached_tail = s.ring.cursors.tail }
          else s.consumer)
  unfolding available set_cached_tail
  available-consumer head s = ground arith

  -- Items are available exactly when some are left.
  pub available-empty : {n : ℕ} {s : Spsc A} → Draining n s [] → (available (word n) s).0 ≡ false
  unfolding available set_cached_tail
  available-empty {n} {s} d = ground arith

  pub available-some :
      {n : ℕ} {s : Spsc A} {v : A} {q : List A}
      → Draining n s (v ∷ q)
      → (available (word n) s).0 ≡ true
  unfolding available set_cached_tail
  available-some {n} {s} d = ground (arith, cap-le d.items.valid)

  pub Draining-Repr :
      {n : ℕ} {s : Spsc A} {q : List A} → Draining n s q → s.ring.cursors.head ≡ word n → Repr s q
  Draining-Repr {n} d e = record {
    first = n;
    items = record {
      valid = d.items.valid;
      storage = d.items.storage;
      head_at = e;
      tail_at = d.items.tail_at;
      fits = d.items.fits;
      stored = d.items.stored;
    };
    writes = d.writes;
    reads = d.reads;
  }

  pub available-Reads :
      {n : ℕ} {s : Spsc A} {q : List A} (d : Draining n s q)
      → (k : Reads (available (word n) s).1.consumer n (n + length q)) × (0 < length q
          → n < k.seen_tail)
  available-Reads {n} {s} {q} d =
      rw available-consumer (elim (Bool-cases (word n == s.consumer.cached_tail)) [
        | inl stale ↦ rw stale (
          record {
            seen_tail = n + length q;
            cached_at = d.items.tail_at;
            low = omega arith;
            high = omega arith;
          },
          λ some_left. omega arith,
        )
        | inr current ↦ rw current (d.reads, λ some_left. ground (arith, cap-le d.items.valid))
      ])

  pub available-Draining :
      {n : ℕ} {s : Spsc A} {q : List A} → Draining n s q → Draining n (available (word n) s).1 q
  available-Draining {n} {s} d = record {
    items = rw available-ring d.items;
    writes = rw (available-ring, available-producer) d.writes;
    reads = (available-Reads d).0;
  }

  abbrev pub clear_slot : ℕ → Spsc A → Spsc A
  clear_slot n s = record s {
    ring = record (s.ring) { buf = set s.ring.buf (n % s.ring.capacity.cap) none };
  }

  -- The step of every loop over the items: the item at position `n` leaves its slot.
  abbrev pub taken : ℕ → Spsc A → Spsc A
  taken n s = clear_slot n (available (word n) s).1

  pub cursors-taken : (n : ℕ) (s : Spsc A) → (taken n s).ring.cursors ≡ s.ring.cursors
  cursors-taken n s = ap (λ (r : RingBuffer A). r.cursors) (available-ring (word n) s)

  pub take_slot-some :
      (n : ℕ) (s : Spsc A) (v : A) (q : List A)
      → Draining n s (v ∷ q)
      → take_slot (word n) s.ring ≡ some (v, (clear_slot n s).ring)
  take_slot-some n s v q d =
      take_slot-word s.ring (word n) n v d.items.valid refl (d.items.stored.0)

  pub take_slot-Draining :
      (n : ℕ) (s : Spsc A) (v : A) (q : List A)
      → Draining n s (v ∷ q)
      → take_slot (word n) (available (word n) s).1.ring ≡ some (v, (taken n s).ring)
  take_slot-Draining n s v q d = take_slot-some n _ v q (available-Draining d)

  pub clear_slot-Draining :
      (n : ℕ) (s : Spsc A) (v : A) (q : List A) (d : Draining n s (v ∷ q))
      → n < d.reads.seen_tail
      → Draining (suc n) (clear_slot n s) q
  clear_slot-Draining n s v q d seen = record {
    items = record {
      valid = items.valid;
      storage = length-set s.ring.buf _ none ∙ items.storage;
      head_at = refl;
      tail_at = items.tail_at ∙ ap word shift;
      fits = omega (arith, items.fits);
      stored = Stored-set s.ring.buf cap_ _ (suc n) none q apart (items.stored.1);
    };
    writes = record {
      seen_head = writes.seen_head;
      write_at = writes.write_at ∙ ap word shift;
      cached_at = writes.cached_at;
      old = omega arith;
      room = omega (arith, writes.room);
    };
    reads = record {
      seen_tail = reads.seen_tail;
      cached_at = reads.cached_at;
      low = seen;
      high = omega (arith, reads.high);
    };
  }
    where
      open d use {items, writes, reads}

      cap_ : ℕ
      cap_ = s.ring.capacity.cap

      shift : n + suc (length q) ≡ suc n + length q
      shift = omega arith

      apart : (j : ℕ) → j < length q → n % s.ring.capacity.cap ≢ (suc n + j) % s.ring.capacity.cap
      apart j lt =
          mod-ne s.ring.capacity.cap n (suc n + j) (cap_pos items.valid) (omega arith)
            (omega (arith, items.fits))

  pub taken-Draining :
      (n : ℕ) (s : Spsc A) (v : A) (q : List A)
      → Draining n s (v ∷ q)
      → Draining (suc n) (taken n s) q
  unfolding available-Draining
  taken-Draining n s v q d =
      clear_slot-Draining n _ v q (available-Draining d) ((available-Reads d).1 (omega arith))

  -- The publication of the head ends a loop over the items.
  pub release-Repr :
      (n : ℕ) (s : Spsc A) (q : List A) → Draining n s q → Repr (release (word n) s) q
  unfolding release publish_head Cursors.publish_head
  release-Repr n s q d = record {
    first = n;
    items =
        rw (buf-wake_producer, capacity-wake_producer, cursors-wake_producer)
          (record {
            valid = d.items.valid;
            storage = d.items.storage;
            head_at = refl;
            tail_at = d.items.tail_at;
            fits = d.items.fits;
            stored = d.items.stored;
          });
    writes = rw capacity-wake_producer d.writes;
    reads = d.reads;
  }

  pop_at-empty :
      (head : ℕ) (s : Spsc A)
      → (available head s).0 ≡ false
      → pop_at head s ≡ some (none, (available head s).1)
  unfolding pop_at
  pop_at-empty head s e = rw (e, pop_at)

  pop_at-some :
      (head : ℕ) (s : Spsc A) {v : A} {ring : RingBuffer A}
      → (available head s).0 ≡ true
      → take_slot head (available head s).1.ring ≡ some (v, ring)
      → pop_at head s
        ≡ some (some v, release (add_usize head 1) (record ((available head s).1) { ring = ring }))
  unfolding pop_at
  pop_at-some head s e h = rw (e, pop_at, h)

  pop-word : {s : Spsc A} {q : List A} (r : Repr s q) → pop s ≡ pop_at (word r.first) s
  unfolding pop
  pop-word {s} r = ap (λ h. pop_at h s) r.items.head_at

  -- `pop` returns the oldest item, or none from an empty ring, with no undefined behaviour: the slot
  -- that it reads holds a value. It leaves the ring holding the rest.
  pub pop_refines :
      {s : Spsc A} {q : List A}
      → Repr s q
      → let (reply, q') = Queue.pop q in (s' : Spsc A) × (pop s ≡ some (reply, s')) × Repr s' q'
  unfolding Queue.pop
  pop_refines {s} {q = []} r =
      let d = Repr-Draining r in
      (
        _,
        pop-word r ∙ pop_at-empty (word r.first) s (available-empty d),
        Draining-Repr (available-Draining d) (rw available-ring r.items.head_at),
      )
  pop_refines {s} {q = v ∷ q} r =
      let d = Repr-Draining r in
      (
        _,
        pop-word r
            ∙ pop_at-some (word r.first) s (available-some d) (take_slot-Draining r.first s v q d),
        rw (next_word r.first) (release-Repr (suc r.first) _ q (taken-Draining r.first s v q d)),
      )
