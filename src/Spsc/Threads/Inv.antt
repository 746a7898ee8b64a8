-- ===== src/Spsc/Threads/Inv.antt =====
-- What holds of the two threads and the ring between any two steps.
use quetzalcoatl.Common.{ℕ, suc, ◌+◌, ◌%◌, ◌≤◌, ◌<◌, ◌≡◌, refl, Option, some, List, [], ◌++◌, arith}
use quetzalcoatl.Common.Lists.{length, get_elem?}
use quetzalcoatl.Common.Words.{word}
use quetzalcoatl.Spsc.Ring.{Spsc}
use quetzalcoatl.Spsc.Repr.{Items, Writes, Reads, Repr}
use quetzalcoatl.Spsc.Threads.{
  Threads, Pushing, claiming, writing, publishing, Popping, testing, reading, releasing, start,
}

-- What the place of the popping thread says, when the head is published at `base`, the oldest item is
-- at `first`, and the consumer has seen the tail at `seen`.
abbrev pub PopAt : Popping → (base first seen : ℕ) → Type 0
PopAt testing base first seen = base ≡ first
PopAt (reading head) base first seen = (base ≡ first) × (head ≡ word first) × (first < seen)
PopAt (releasing head) base first seen = (suc base ≡ first) × (head ≡ word base)

module _ {ℓ} {A : Type ℓ} where
  -- What the place of the pushing thread says, when the next item goes to position `last` and the
  -- producer may write below `limit`.
  abbrev pub PushAt : Pushing A → List (Option A) → (m last limit : ℕ) → Type ℓ
  PushAt claiming buf m last limit = Unit
  PushAt (writing pos v) buf m last limit = (pos ≡ word last) × (last < limit) × Unit {ℓ}
  PushAt (publishing pos v) buf m last limit =
      (pos ≡ word last) × (last < limit) × (get_elem? buf (last % m) ≡ some (some v))

  pub record Inv (t : Threads A) : Type ℓ where
    pub base : ℕ
    pub first : ℕ
    pub queue : List A
    pub head_at : t.spsc.ring.cursors.head ≡ word base
    pub items :
        Items t.spsc.ring.buf t.spsc.ring.capacity
          (record (t.spsc.ring.cursors) { head = word first })
          first
          queue
    pub writes : Writes t.spsc.producer t.spsc.ring.capacity.cap base (first + length queue)
    pub reads : Reads t.spsc.consumer first (first + length queue)
    pub pushing :
        PushAt t.pushing t.spsc.ring.buf t.spsc.ring.capacity.cap
          (first + length queue)
          (writes.seen_head + t.spsc.ring.capacity.cap)
    pub popping : PopAt t.popping base first reads.seen_tail
    pub in_order : t.sent ≡ t.received ++ queue

  pub start-Inv : (s : Spsc A) → Repr s [] → Inv (start s)
  unfolding start
  start-Inv s r = record {
    base = r.first;
    first = r.first;
    queue = [];
    head_at = r.items.head_at;
    items = record {
      valid = r.items.valid;
      storage = r.items.storage;
      head_at = refl;
      tail_at = r.items.tail_at;
      fits = r.items.fits;
      stored = r.items.stored;
    };
    writes = r.writes;
    reads = r.reads;
    pushing = tt;
    popping = refl;
    in_order = refl;
  }

  pub base-le : {t : Threads A} (i : Inv t) → i.base ≤ i.first
  base-le {t} i = go t.popping i.reads.seen_tail i.popping
    where
      go : (p : Popping) (seen : ℕ) → PopAt p i.base i.first seen → i.base ≤ i.first
      go testing seen h = omega arith
      go (reading head) seen h = omega arith
      go (releasing head) seen h = omega arith

  pub base-le_last : {t : Threads A} (i : Inv t) → i.base ≤ i.first + length i.queue
  base-le_last i = omega (arith, base-le i)
