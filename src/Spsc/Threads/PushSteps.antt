-- ===== src/Spsc/Threads/PushSteps.antt =====
-- Every step of the pushing thread is defined and keeps the invariant.
use native.Mathlib.Nat.{mod-lt}
use native.Mathlib.Decide.{dec_lt}
use quetzalcoatl.Common.{
  ℕ, ◌+◌, ◌%◌, ◌<◌, ◌≡◌, ◌≢◌, refl, sym, ap, subst, ◌∙◌, Option, none, some, List, [], ◌∷◌, ◌++◌,
  append_assoc, arith,
}
use quetzalcoatl.Common.Tests.{lt→ltb}
use quetzalcoatl.Common.Lists.{length, set, length-append, length-set, get_elem?-set_self}
use quetzalcoatl.Common.Words.{word, add_usize}
use quetzalcoatl.Capacity.Lap.{mod-ne, cap_pos, index_of-word}
use quetzalcoatl.Sync.Cursors
use quetzalcoatl.Spsc.Ring.{Spsc, write_slot, publish_tail}
use quetzalcoatl.Spsc.Producer.{try_claim, publish}
use quetzalcoatl.Spsc.Repr.{
  Stored-set, Stored-append, buf-wake_consumer, capacity-wake_consumer, cursors-wake_consumer,
}
use quetzalcoatl.Spsc.Claim.{
  try_claim-ring, try_claim-consumer, try_claim-granted, try_claim-refused, try_claim-Writes,
}
use quetzalcoatl.Spsc.Threads.{Threads, Pushing, claiming, writing, publishing, claimed, push_step}
use quetzalcoatl.Spsc.Threads.Inv.{Inv, PushAt, base-le, base-le_last}

module _ {ℓ} {A : Type ℓ} where
  claimed-some :
      (v : A) (t : Threads A) (c : Option ℕ × Spsc A) {pos : ℕ}
      → c.0 ≡ some pos
      → claimed v t c ≡ record t { spsc = c.1; pushing = writing pos v }
  unfolding claimed
  claimed-some v t c e = rw (e, claimed)

  claimed-none :
      (v : A) (t : Threads A) (c : Option ℕ × Spsc A)
      → c.0 ≡ none
      → claimed v t c ≡ record t { spsc = c.1 }
  unfolding claimed
  claimed-none v t c e = rw (e, claimed)

  -- The invariant of a thread that has claimed, or that may claim again.
  after_claim :
      (t : Threads A) (i : Inv t) (p : Pushing A)
      → PushAt p t.spsc.ring.buf t.spsc.ring.capacity.cap (i.first + length i.queue) (
          (try_claim-Writes t.spsc i.items.valid i.writes i.head_at (base-le_last i)).0.seen_head
          + t.spsc.ring.capacity.cap)
      → Inv (record t { spsc = (try_claim t.spsc).1; pushing = p })
  after_claim t i p at = record {
    base = i.base;
    first = i.first;
    queue = i.queue;
    head_at = rw try_claim-ring i.head_at;
    items = rw try_claim-ring i.items;
    writes =
        rw try_claim-ring
          (try_claim-Writes t.spsc i.items.valid i.writes i.head_at (base-le_last i)).0;
    reads = rw try_claim-consumer i.reads;
    pushing = rw try_claim-ring at;
    popping = i.popping;
    in_order = i.in_order;
  }

  PushAt-claiming :
      (p : Pushing A)
      → p ≡ claiming
      → (buf : List (Option A)) (m last limit : ℕ) → PushAt p buf m last limit
  PushAt-claiming p e buf m last limit = subst (λ p. PushAt p buf m last limit) (sym e) tt

  claim-Inv :
      (v : A) (t : Threads A) → t.pushing ≡ claiming → Inv t → Inv (claimed v t (try_claim t.spsc))
  claim-Inv v t e i = elim (dec_lt (i.first + length i.queue) (i.base + t.spsc.ring.capacity.cap)) [
    | yes room ↦
        subst Inv
          (sym (
            claimed-some v t (try_claim t.spsc)
              (try_claim-granted t.spsc i.items.valid i.writes i.head_at (base-le_last i) room)))
          (after_claim t i (writing t.spsc.producer.write_pos v) (
            i.writes.write_at,
            (try_claim-Writes t.spsc i.items.valid i.writes i.head_at (base-le_last i)).1 room,
            tt,
          ))
    | no full ↦
        subst Inv
          (sym (
            claimed-none v t (try_claim t.spsc) (
              try_claim-refused t.spsc i.items.valid i.writes i.head_at (base-le_last i)
                (omega (arith, i.writes.room, i.writes.old)))))
          (after_claim t i t.pushing (PushAt-claiming t.pushing e _ _ _ _))
  ]

  -- The slot that a push may write is none of the slots that hold items, and not the one that a pop has
  -- just read.
  pub write-apart :
      {t : Threads A} (i : Inv t)
      → i.first + length i.queue < i.writes.seen_head + t.spsc.ring.capacity.cap
      → (j : ℕ) → j < length i.queue
      → (i.first + length i.queue) % t.spsc.ring.capacity.cap
        ≢ (i.first + j) % t.spsc.ring.capacity.cap
  write-apart {t} i space j lt e =
      mod-ne t.spsc.ring.capacity.cap (i.first + j) (i.first + length i.queue)
        (cap_pos i.items.valid) (omega arith) (omega (arith, base-le i, i.writes.old)) (sym e)

  abbrev next_slot : {t : Threads A} → Inv t → ℕ
  next_slot {t} i = (i.first + length i.queue) % t.spsc.ring.capacity.cap

  next_slot-lt : {t : Threads A} (i : Inv t) → next_slot i < length t.spsc.ring.buf
  next_slot-lt {t} i =
      rw i.items.storage (mod-lt (i.first + length i.queue) (cap_pos i.items.valid))

  write_slot-next :
      (v : A) {t : Threads A} (i : Inv t) {pos : ℕ}
      → pos ≡ word (i.first + length i.queue)
      → write_slot pos v t.spsc.ring
        ≡ some (record (t.spsc.ring) { buf = set t.spsc.ring.buf (next_slot i) (some v) })
  unfolding write_slot
  write_slot-next v {t} i e =
      rw (e, index_of-word i.items.valid (i.first + length i.queue), lt→ltb _ _ (next_slot-lt i))

  -- What the invariant says at the place where the thread stands.
  pub place :
      {t : Threads A} (i : Inv t) {p : Pushing A}
      → t.pushing ≡ p
      → PushAt p t.spsc.ring.buf t.spsc.ring.capacity.cap
          (i.first + length i.queue)
          (i.writes.seen_head + t.spsc.ring.capacity.cap)
  place {t} i e =
      subst
        (λ p.
          PushAt p t.spsc.ring.buf t.spsc.ring.capacity.cap (i.first + length i.queue)
            (i.writes.seen_head + t.spsc.ring.capacity.cap))
        e i.pushing

  next_last :
      {t : Threads A} (i : Inv t) (w : A) {pos : ℕ}
      → pos ≡ word (i.first + length i.queue)
      → add_usize pos 1 ≡ word (i.first + length (i.queue ++ (w ∷ [])))
  next_last i w e = omega (arith, length-append i.queue (w ∷ []))

  abbrev written : (t : Threads A) → Inv t → ℕ → A → Threads A
  written t i pos w = record t {
    spsc = record (t.spsc) {
      ring = record (t.spsc.ring) { buf = set t.spsc.ring.buf (next_slot i) (some w) };
    };
    pushing = publishing pos w;
  }

  write-Inv :
      (pos : ℕ) (w v : A) (t : Threads A)
      → t.pushing ≡ writing pos w
      → Inv t
      → (t' : Threads A) × (push_step (writing pos w) v t ≡ some t') × Inv t'
  unfolding push_step
  write-Inv pos w v t e i =
      let (at, space, _) = place i e in
      (
        written t i pos w,
        rw (write_slot-next w i at),
        record {
          base = i.base;
          first = i.first;
          queue = i.queue;
          head_at = i.head_at;
          items = record {
            valid = i.items.valid;
            storage = length-set t.spsc.ring.buf _ (some w) ∙ i.items.storage;
            head_at = refl;
            tail_at = i.items.tail_at;
            fits = i.items.fits;
            stored =
                Stored-set t.spsc.ring.buf _ _ i.first (some w) i.queue (write-apart i space)
                  i.items.stored;
          };
          writes = i.writes;
          reads = i.reads;
          pushing = (at, space, get_elem?-set_self t.spsc.ring.buf _ (some w) (next_slot-lt i));
          popping = i.popping;
          in_order = i.in_order;
        },
      )

  publish-Inv :
      (pos : ℕ) (w v : A) (t : Threads A)
      → t.pushing ≡ publishing pos w
      → Inv t
      → (t' : Threads A) × (push_step (publishing pos w) v t ≡ some t') × Inv t'
  unfolding push_step publish publish_tail Cursors.publish_tail
  publish-Inv pos w v t e i =
      let (at, space, here) = place i e in
      (
        _,
        refl,
        record {
          base = i.base;
          first = i.first;
          queue = i.queue ++ (w ∷ []);
          head_at = rw cursors-wake_consumer i.head_at;
          items =
              rw (buf-wake_consumer, capacity-wake_consumer, cursors-wake_consumer)
                (record {
                  valid = i.items.valid;
                  storage = i.items.storage;
                  head_at = refl;
                  tail_at = next_last i w at;
                  fits = omega (arith, base-le i, i.writes.old, length-append i.queue (w ∷ []));
                  stored =
                      Stored-append _ _ i.first (i.first + length i.queue) w i.queue refl here
                        i.items.stored;
                });
          writes = rw capacity-wake_consumer (record {
            seen_head = i.writes.seen_head;
            write_at = next_last i w at;
            cached_at = i.writes.cached_at;
            old = i.writes.old;
            room = omega (arith, length-append i.queue (w ∷ []));
          });
          reads = record {
            seen_tail = i.reads.seen_tail;
            cached_at = i.reads.cached_at;
            low = i.reads.low;
            high = omega (arith, i.reads.high, length-append i.queue (w ∷ []));
          };
          pushing = tt;
          popping = i.popping;
          in_order = ap (λ l. l ++ (w ∷ [])) i.in_order ∙ append_assoc t.received i.queue (w ∷ []);
        },
      )

  -- Every step of the pushing thread is defined and keeps the invariant.
  pub push_step-Inv :
      (p : Pushing A) (v : A) (t : Threads A)
      → t.pushing ≡ p
      → Inv t
      → (t' : Threads A) × (push_step p v t ≡ some t') × Inv t'
  unfolding push_step
  push_step-Inv claiming v t e i = (_, refl, claim-Inv v t e i)
  push_step-Inv (writing pos w) v t e i = write-Inv pos w v t e i
  push_step-Inv (publishing pos w) v t e i = publish-Inv pos w v t e i
