-- ===== src/Spsc/Push.antt =====
-- The producer's operations on a ring that holds a queue.
use native.Mathlib.Nat.{mod-lt}
use quetzalcoatl.Common.{
  ℕ, ◌+◌, ◌%◌, ◌<◌, ◌≡◌, ◌≢◌, refl, sym, ◌∙◌, inl, inr, Option, none, some, List, [], ◌∷◌, ◌++◌,
  arith,
}
use quetzalcoatl.Common.Tests.{ltb, ltb→lt, lt→ltb, Bool-cases}
use quetzalcoatl.Common.Lists.{
  length, get_elem?, set, length-append, length-set, get_elem?-set_self,
}
use quetzalcoatl.Common.Words.{word, add_usize}
use quetzalcoatl.Capacity.Lap.{mod-ne, cap_pos, index_of-word}
use quetzalcoatl.Sync.Cursors
use quetzalcoatl.Sync.Cursors.{Cursors}
use quetzalcoatl.Spsc.Ring.{RingBuffer, Spsc, write_slot, publish_tail}
use quetzalcoatl.Spsc.Producer.{ok, err, try_claim, publish, push}
use quetzalcoatl.Spsc.Queue
use quetzalcoatl.Spsc.Claim.{
  try_claim-ring, try_claim-consumer, try_claim-granted, try_claim-refused, try_claim-Writes,
}
use quetzalcoatl.Spsc.Repr.{
  Repr, Stored-set, Stored-append, buf-wake_consumer, capacity-wake_consumer, cursors-wake_consumer,
}

module _ {ℓ} {A : Type ℓ} where
  -- A ring with a claimed position: there is room for one more item.
  pub record Claimed (pos : ℕ) (s : Spsc A) (q : List A) : Type ℓ where
    pub repr : Repr s q
    pub at : pos ≡ word (repr.first + length q)
    pub room : length q < s.ring.capacity.cap
    pub space : repr.first + length q < repr.writes.seen_head + s.ring.capacity.cap

  abbrev pub next_index : {s : Spsc A} {q : List A} → Repr s q → ℕ
  next_index {s} {q} r = (r.first + length q) % s.ring.capacity.cap

  abbrev pub with_buf : Spsc A → List (Option A) → Spsc A
  with_buf s buf = record s { ring = record (s.ring) { buf = buf } }

  pub try_claim-Claimed :
      (s : Spsc A) (q : List A)
      → Repr s q
      → length q < s.ring.capacity.cap
      → ((try_claim s).0 ≡ some (s.producer.write_pos))
        × Claimed s.producer.write_pos (try_claim s).1 q
  try_claim-Claimed s q r room =
      let (w, space) = try_claim-Writes s valid r.writes r.items.head_at (omega arith) in
      (
        try_claim-granted s valid r.writes r.items.head_at (omega arith) (omega arith),
        record {
          repr = record {
            first = r.first;
            items = rw try_claim-ring r.items;
            writes = rw try_claim-ring w;
            reads = rw try_claim-consumer r.reads;
          };
          at = r.writes.write_at;
          room = rw try_claim-ring room;
          space = rw try_claim-ring (space (omega arith));
        },
      )
    where
      open (r.items) use {valid}

  pub try_claim-full :
      (s : Spsc A) (q : List A)
      → Repr s q
      → length q ≡ s.ring.capacity.cap
      → ((try_claim s).0 ≡ none) × Repr (try_claim s).1 q
  try_claim-full s q r full = (
    try_claim-refused s valid r.writes r.items.head_at (omega arith) (omega arith),
    record {
      first = r.first;
      items = rw try_claim-ring r.items;
      writes =
          rw try_claim-ring (try_claim-Writes s valid r.writes r.items.head_at (omega arith)).0;
      reads = rw try_claim-consumer r.reads;
    },
  )
    where
      open (r.items) use {valid}

  pub next_index-lt : {s : Spsc A} {q : List A} (r : Repr s q) → next_index r < length s.ring.buf
  next_index-lt {q} r = rw r.items.storage (mod-lt (r.first + length q) (cap_pos r.items.valid))

  -- The slot of the next position is none of the slots that hold items.
  next_index-ne :
      {s : Spsc A} {q : List A} (r : Repr s q)
      → length q < s.ring.capacity.cap
      → (j : ℕ) → j < length q
      → next_index r ≢ (r.first + j) % s.ring.capacity.cap
  next_index-ne {s} {q} r room j lt e =
      mod-ne s.ring.capacity.cap (r.first + j) (r.first + length q) (cap_pos r.items.valid)
        (omega arith) (omega arith) (sym e)

  -- A write to the claimed slot changes no item.
  pub write-Claimed :
      (o : Option A) {pos : ℕ} {s : Spsc A} {q : List A} (k : Claimed pos s q)
      → Claimed pos (with_buf s (set s.ring.buf (next_index k.repr) o)) q
  write-Claimed o {s} {q} k = record {
    repr = record {
      first = first;
      items = record {
        valid = items.valid;
        storage = length-set s.ring.buf _ o ∙ items.storage;
        head_at = items.head_at;
        tail_at = items.tail_at;
        fits = items.fits;
        stored = Stored-set s.ring.buf _ _ first o q (next_index-ne k.repr k.room) items.stored;
      };
      writes = writes;
      reads = reads;
    };
    at = k.at;
    room = k.room;
    space = k.space;
  }
    where
      open (k.repr) use {first, items, writes, reads}

  -- A claimed position whose slot holds a value.
  pub record Written (pos : ℕ) (v : A) (s : Spsc A) (q : List A) : Type ℓ where
    pub claimed : Claimed pos s q
    pub holds : get_elem? s.ring.buf (next_index claimed.repr) ≡ some (some v)

  pub write-Written :
      (v : A) {pos : ℕ} {s : Spsc A} {q : List A} (k : Claimed pos s q)
      → Written pos v (with_buf s (set s.ring.buf (next_index k.repr) (some v))) q
  unfolding write-Claimed
  write-Written v {s} {q} k = record {
    claimed = write-Claimed (some v) k;
    holds = get_elem?-set_self s.ring.buf _ (some v) (next_index-lt k.repr);
  }

  -- The publication of a written slot adds its value to the queue.
  pub publish-Repr :
      (v : A) {pos : ℕ} {s : Spsc A} {q : List A}
      → Written pos v s q
      → Repr (publish pos s) (q ++ (v ∷ []))
  unfolding publish publish_tail Cursors.publish_tail
  publish-Repr v {pos} {s} {q} w = record {
    first = first;
    items =
        rw (buf-wake_consumer, capacity-wake_consumer, cursors-wake_consumer)
          (record {
            valid = items.valid;
            storage = items.storage;
            head_at = items.head_at;
            tail_at = next;
            fits = omega (arith, w.claimed.room, length-append q (v ∷ []));
            stored = Stored-append _ _ first (first + length q) v q refl w.holds items.stored;
          });
    writes = rw capacity-wake_consumer (record {
      seen_head = writes.seen_head;
      write_at = next;
      cached_at = writes.cached_at;
      old = writes.old;
      room = omega (arith, w.claimed.space, length-append q (v ∷ []));
    });
    reads = record {
      seen_tail = reads.seen_tail;
      cached_at = reads.cached_at;
      low = reads.low;
      high = omega (arith, reads.high, length-append q (v ∷ []));
    };
  }
    where
      open (w.claimed.repr) use {first, items, writes, reads}

      next : add_usize pos 1 ≡ word (first + length (q ++ (v ∷ [])))
      next = omega (arith, w.claimed.at, length-append q (v ∷ []))

  pub write_slot-Claimed :
      (v : A) {pos : ℕ} {s : Spsc A} {q : List A} (k : Claimed pos s q)
      → write_slot pos v s.ring
        ≡ some (record (s.ring) { buf = set s.ring.buf (next_index k.repr) (some v) })
  unfolding write_slot
  write_slot-Claimed v {s} {q} k =
      rw (k.at, index_of-word items.valid (first + length q), lt→ltb _ _ (next_index-lt k.repr))
    where
      open (k.repr) use {first, items}

  push-refused :
      (v : A) (s : Spsc A) → (try_claim s).0 ≡ none → push v s ≡ some (err v, (try_claim s).1)
  unfolding push
  push-refused v s e = rw (e, push)

  push-claimed :
      (v : A) (s : Spsc A) {pos : ℕ} {ring : RingBuffer A}
      → (try_claim s).0 ≡ some pos
      → write_slot pos v (try_claim s).1.ring ≡ some ring
      → push v s ≡ some (ok, publish pos (record ((try_claim s).1) { ring = ring }))
  unfolding push
  push-claimed v s e h = rw (e, push, h)

  -- `push` answers as the bounded queue does, with no undefined behaviour, and leaves the ring holding
  -- what the queue holds.
  pub push_refines :
      (v : A) {s : Spsc A} {q : List A}
      → Repr s q
      → let (reply, q') = Queue.push s.ring.capacity.cap v q in
        (s' : Spsc A) × (push v s ≡ some (reply, s')) × Repr s' q'
  unfolding Queue.push
  push_refines v {s} {q} r = elim (Bool-cases (ltb (length q) s.ring.capacity.cap)) [
    | inl room ↦
        let (claim, k) = try_claim-Claimed s q r (ltb→lt _ _ room) in
        rw room
          (_, push-claimed v s claim (write_slot-Claimed v k), publish-Repr v (write-Written v k))
    | inr full ↦
        let (claim, r') = try_claim-full s q r (ground (arith, r.items.fits)) in
        rw full (_, push-refused v s claim, r')
  ]
