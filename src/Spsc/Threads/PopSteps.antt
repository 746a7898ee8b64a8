-- ===== src/Spsc/Threads/PopSteps.antt =====
-- Every step of the popping thread is defined and keeps the invariant.
use quetzalcoatl.Common.{
  ℕ, suc, ◌+◌, ◌%◌, ◌<◌, ◌≡◌, refl, sym, ap, subst, ◌∙◌, Bool, true, false, none, some, List, [],
  ◌∷◌, ◌++◌, append_assoc, arith,
}
use quetzalcoatl.Common.Lists.{length, set, get_elem?-set_ne}
use quetzalcoatl.Common.Words.{word}
use quetzalcoatl.Capacity.Lap.{mod-ne, cap_pos}
use quetzalcoatl.Sync.Cursors
use quetzalcoatl.Spsc.Ring.{Spsc, publish_head}
use quetzalcoatl.Spsc.Consumer.{available, release}
use quetzalcoatl.Spsc.Repr.{buf-wake_producer, capacity-wake_producer, cursors-wake_producer}
use quetzalcoatl.Spsc.Pop.{
  Draining, available-ring, available-producer, available-Reads, available-empty, available-some,
  clear_slot, clear_slot-Draining, take_slot-some,
}
use quetzalcoatl.Spsc.Threads.{
  Threads, Pushing, claiming, writing, publishing, Popping, testing, reading, releasing, tested,
  pop_step,
}
use quetzalcoatl.Spsc.Threads.Inv.{Inv, PushAt, PopAt, base-le}

PopAt-testing :
    (p : Popping)
    → p ≡ testing
    → {base first : ℕ} (seen : ℕ) → base ≡ first
    → PopAt p base first seen
PopAt-testing p e {base} {first} seen same = subst (λ p. PopAt p base first seen) (sym e) same

module _ {ℓ} {A : Type ℓ} where
  pub pop_place :
      {t : Threads A} (i : Inv t) {p : Popping}
      → t.popping ≡ p
      → PopAt p i.base i.first i.reads.seen_tail
  pop_place i e = subst (λ p. PopAt p i.base i.first i.reads.seen_tail) e i.popping

  release-Inv :
      (head : ℕ) (t : Threads A)
      → t.popping ≡ releasing head
      → Inv t
      → (t' : Threads A) × (pop_step (releasing head) t ≡ some t') × Inv t'
  unfolding pop_step release publish_head Cursors.publish_head
  release-Inv head t e i =
      let (moved, at) = pop_place i e in
      (
        _,
        refl,
        record {
          base = i.first;
          first = i.first;
          queue = i.queue;
          head_at = rw cursors-wake_producer (omega arith);
          items = rw (buf-wake_producer, capacity-wake_producer, cursors-wake_producer) i.items;
          writes = rw capacity-wake_producer (record {
            seen_head = i.writes.seen_head;
            write_at = i.writes.write_at;
            cached_at = i.writes.cached_at;
            old = omega (arith, i.writes.old);
            room = i.writes.room;
          });
          reads = i.reads;
          pushing = rw (buf-wake_producer, capacity-wake_producer) i.pushing;
          popping = refl;
          in_order = i.in_order;
        },
      )

  -- The ring as its consumer sees it, the head published or not.
  Inv-Draining : {t : Threads A} (i : Inv t) → Draining i.first t.spsc i.queue
  Inv-Draining i = record {
    items = i.items;
    writes = record {
      seen_head = i.writes.seen_head;
      write_at = i.writes.write_at;
      cached_at = i.writes.cached_at;
      old = omega (arith, i.writes.old, base-le i);
      room = i.writes.room;
    };
    reads = i.reads;
  }

  tested-some :
      (head : ℕ) (t : Threads A) (a : Bool × Spsc A)
      → a.0 ≡ true
      → tested head t a ≡ record t { spsc = a.1; popping = reading head }
  unfolding tested
  tested-some head t a e = rw (e, tested)

  tested-none :
      (head : ℕ) (t : Threads A) (a : Bool × Spsc A)
      → a.0 ≡ false
      → tested head t a ≡ record t { spsc = a.1 }
  unfolding tested
  tested-none head t a e = rw (e, tested)

  after_test :
      (t : Threads A) (i : Inv t) (p : Popping)
      → PopAt p i.base i.first (available-Reads (Inv-Draining i)).0.seen_tail
      → Inv (record t { spsc = (available (word i.first) t.spsc).1; popping = p })
  after_test t i p at = record {
    base = i.base;
    first = i.first;
    queue = i.queue;
    head_at = rw available-ring i.head_at;
    items = rw available-ring i.items;
    writes = rw (available-ring, available-producer) i.writes;
    reads = (available-Reads (Inv-Draining i)).0;
    pushing = rw available-ring i.pushing;
    popping = at;
    in_order = i.in_order;
  }

  Inv-Draining_at :
      {t : Threads A} (i : Inv t) {q : List A} → i.queue ≡ q → Draining i.first t.spsc q
  Inv-Draining_at {t} i e = subst (λ q. Draining i.first t.spsc q) e (Inv-Draining i)

  test-Inv :
      (t : Threads A) (i : Inv t) (q : List A)
      → t.popping ≡ testing
      → i.queue ≡ q
      → Inv (tested (word i.first) t (available (word i.first) t.spsc))
  test-Inv t i [] e none_left =
      subst Inv
        (sym (
          tested-none _ t (available (word i.first) t.spsc)
            (available-empty (Inv-Draining_at i none_left))))
        (after_test t i t.popping (PopAt-testing t.popping e _ (pop_place i e)))
  test-Inv t i (v ∷ q) e some_left =
      subst Inv
        (sym (
          tested-some _ t (available (word i.first) t.spsc)
            (available-some {v = v} {q = q} (Inv-Draining_at i some_left))))
        (after_test t i (reading (word i.first)) (
          pop_place i e,
          refl,
          (available-Reads (Inv-Draining i)).1 (omega (arith, ap length some_left)),
        ))

  test_step-Inv :
      (t : Threads A)
      → t.popping ≡ testing
      → Inv t
      → (t' : Threads A) × (pop_step testing t ≡ some t') × Inv t'
  unfolding pop_step
  test_step-Inv t e i = (
    _,
    ap (λ (h : ℕ). some (tested h t (available h t.spsc))) (i.head_at ∙ ap word (pop_place i e)),
    test-Inv t i i.queue e refl,
  )

  -- The slot that a push has written and not published is not the one that a pop empties.
  pushing_kept :
      {t : Threads A} (i : Inv t)
      → 0 < length i.queue
      → (p : Pushing A)
      → PushAt p t.spsc.ring.buf t.spsc.ring.capacity.cap
          (i.first + length i.queue)
          (i.writes.seen_head + t.spsc.ring.capacity.cap)
      → PushAt p
          (set t.spsc.ring.buf (i.first % t.spsc.ring.capacity.cap) none)
          t.spsc.ring.capacity.cap
          (i.first + length i.queue)
          (i.writes.seen_head + t.spsc.ring.capacity.cap)
  pushing_kept i some_left claiming at = tt
  pushing_kept i some_left (writing pos v) at = at
  pushing_kept {t} i some_left (publishing pos v) (at, space, here) = (
    at,
    space,
    get_elem?-set_ne t.spsc.ring.buf none (
          mod-ne t.spsc.ring.capacity.cap i.first (i.first + length i.queue) (cap_pos i.items.valid)
            (omega arith) (omega (arith, i.writes.old, base-le i)))
        ∙ here,
  )

  read-Inv :
      (head : ℕ) (t : Threads A) (i : Inv t) (q : List A)
      → t.popping ≡ reading head
      → i.queue ≡ q
      → (t' : Threads A) × (pop_step (reading head) t ≡ some t') × Inv t'
  unfolding pop_step Inv-Draining_at Inv-Draining
  read-Inv head t i [] e none_left =
      absurd (omega (arith, (pop_place i e).2, i.reads.high, ap length none_left))
  read-Inv head t i (v ∷ q) e some_left =
      let (same, at, seen) = pop_place i e in
      let d =
        clear_slot-Draining i.first t.spsc v q (Inv-Draining_at i some_left) (pop_place i e).2 in
      (
        record t {
          spsc = clear_slot i.first t.spsc;
          popping = releasing head;
          received = t.received ++ (v ∷ []);
        },
        rw (at, take_slot-some i.first t.spsc v q (Inv-Draining_at i some_left)),
        record {
          base = i.base;
          first = suc i.first;
          queue = q;
          head_at = i.head_at;
          items = d.items;
          writes = record {
            seen_head = i.writes.seen_head;
            write_at = i.writes.write_at ∙ ap word (shift some_left);
            cached_at = i.writes.cached_at;
            old = i.writes.old;
            room = omega (arith, i.writes.room, ap length some_left);
          };
          reads = d.reads;
          pushing =
              subst
                (λ (last : ℕ).
                  PushAt t.pushing (clear_slot i.first t.spsc).ring.buf t.spsc.ring.capacity.cap
                    last (i.writes.seen_head + t.spsc.ring.capacity.cap))
                (shift some_left)
                (pushing_kept i (omega (arith, ap length some_left)) t.pushing i.pushing);
          popping = (ap suc same, at ∙ ap word (sym same));
          in_order =
              i.in_order
              ∙ ap (λ l. t.received ++ l) some_left
              ∙ sym (append_assoc t.received (v ∷ []) q);
        },
      )
    where
      shift : {v : A} → i.queue ≡ v ∷ q → i.first + length i.queue ≡ suc i.first + length q
      shift e = omega (arith, ap length e)

  pub pop_step-Inv :
      (p : Popping) (t : Threads A)
      → t.popping ≡ p
      → Inv t
      → (t' : Threads A) × (pop_step p t ≡ some t') × Inv t'
  pop_step-Inv testing t e i = test_step-Inv t e i
  pop_step-Inv (reading head) t e i = read-Inv head t i i.queue e refl
  pop_step-Inv (releasing head) t e i = release-Inv head t e i
