-- ===== src/Spsc/Drain.antt =====
-- The batch operations of the spsc consumer: `drain`, `drain_up_to`, and the drop of the consumer.
use quetzalcoatl.Common.{
  ℕ, zero, suc, ◌<◌, ◌≡◌, ◌≢◌, refl, sym, ap, subst, ◌∙◌, ◌⊎◌, Bool, true, false, inl, inr, some,
  List, [], ◌∷◌, arith,
}
use quetzalcoatl.Common.Tests.{if◌then◌else◌, Bool-cases}
use quetzalcoatl.Common.Lists.{length}
use quetzalcoatl.Capacity
use quetzalcoatl.Common.Words.{word}
use quetzalcoatl.Sync.Cursors.{Cursors}
use quetzalcoatl.Spsc.Ring.{Spsc, take_slot}
use quetzalcoatl.Spsc.Consumer.{
  Exit, emptied, at_limit, unwound, HeadPublisher, publisher_at, advance, available, drop_publisher,
  Drain, drain_loop, drain_up_to, drain,
}
use quetzalcoatl.Spsc.Queue
use quetzalcoatl.Spsc.Repr.{Repr}
use quetzalcoatl.Spsc.Pop.{
  Draining, Repr-Draining, Draining-Repr, available-ring, available-empty, available-some,
  available-Draining, taken, cursors-taken, take_slot-Draining, taken-Draining, release-Repr,
  next_word,
}

abbrev publisher : ℕ → Bool → HeadPublisher
publisher n advanced = record { head = word n; advanced = advanced }

advance-publisher : (n : ℕ) (b : Bool) → advance (publisher n b) ≡ publisher (suc n) true
unfolding advance
advance-publisher n b = ap (λ h. record { head = h; advanced = true }) (next_word n)

module _ {ℓ κ} {A : Type ℓ} {S : Type κ} (f : S → A → S × Bool) where
  -- What a loop that began at head `start` has done when it ends with `q` left.
  record Ended (start : ℕ) (d : Drain A S) (q : List A) : Type (ℓ ⊔ κ) where
    position : ℕ
    draining : Draining position d.spsc q
    at : d.publisher.head ≡ word position
    unpublished : d.spsc.ring.cursors.head ≡ word start
    moved : (d.publisher.advanced ≡ true) ⊎ (position ≡ start)

  -- The loop has done what feeding the callback from the queue gives.
  record Feeds (start : ℕ) (out : S × ℕ × Exit × List A) (d : Drain A S) : Type (ℓ ⊔ κ) where
    state_at : d.state ≡ out.0
    count_at : d.count ≡ out.1
    exit_at : d.exit ≡ out.2
    ended : Ended start d out.3

  -- A loop that a panic ends after the item at position `n`.
  abbrev cut_short : ℕ → Spsc A → S → ℕ → Drain A S
  cut_short n s st count = record {
    state = st;
    count = count;
    exit = unwound;
    publisher = publisher (suc n) true;
    spsc = taken n s;
  }

  feed-returns :
      (rounds : ℕ) (st : S) (count : ℕ) (v : A) (q : List A)
      → (f st v).1 ≡ true
      → Queue.feed f (suc rounds) st count (v ∷ q) ≡ Queue.feed f rounds (f st v).0 (suc count) q
  unfolding Queue.feed
  feed-returns rounds st count v q e = rw e

  feed-panics :
      (rounds : ℕ) (st : S) (count : ℕ) (v : A) (q : List A)
      → (f st v).1 ≡ false
      → Queue.feed f (suc rounds) st count (v ∷ q) ≡ ((f st v).0, suc count, unwound, q)
  unfolding Queue.feed
  feed-panics rounds st count v q e = rw e

  drain_loop-empty :
      (rounds n : ℕ) (b : Bool) (st : S) (count : ℕ) (s : Spsc A)
      → (available (word n) s).0 ≡ false
      → drain_loop f (suc rounds) st count (publisher n b) s
        ≡ some (record {
          state = st;
          count = count;
          exit = emptied;
          publisher = publisher n b;
          spsc = (available (word n) s).1;
        })
  unfolding drain_loop
  drain_loop-empty rounds n b st count s e = rw (e, drain_loop)

  drain_loop-some :
      (rounds n : ℕ) (b : Bool) (st : S) (count : ℕ) (s : Spsc A) {v : A}
      → (available (word n) s).0 ≡ true
      → take_slot (word n) (available (word n) s).1.ring ≡ some (v, (taken n s).ring)
      → drain_loop f (suc rounds) st count (publisher n b) s ≡ (
          if (f st v).1
          then drain_loop f rounds (f st v).0 (suc count) (publisher (suc n) true) (taken n s)
          else some (cut_short n s (f st v).0 (suc count)))
  unfolding drain_loop
  drain_loop-some rounds n b st count s e h = rw (e, drain_loop, h, advance-publisher n b)

  drain_loop-Feeds :
      (rounds start n : ℕ) (b : Bool) (st : S) (count : ℕ) (s : Spsc A) (q : List A)
      → Draining n s q
      → s.ring.cursors.head ≡ word start
      → (b ≡ true) ⊎ (n ≡ start)
      → (d : Drain A S) × (drain_loop f rounds st count (publisher n b) s ≡ some d)
        × Feeds start (Queue.feed f rounds st count q) d
  unfolding drain_loop Queue.feed
  drain_loop-Feeds zero start n b st count s q d head moved = (
    _,
    refl,
    record {
      state_at = refl;
      count_at = refl;
      exit_at = refl;
      ended = record { position = n; draining = d; at = refl; unpublished = head; moved = moved };
    },
  )
  drain_loop-Feeds (suc rounds) start n b st count s [] d head moved = (
    _,
    drain_loop-empty rounds n b st count s (available-empty d),
    record {
      state_at = refl;
      count_at = refl;
      exit_at = refl;
      ended = record {
        position = n;
        draining = available-Draining d;
        at = refl;
        unpublished = rw available-ring head;
        moved = moved;
      };
    },
  )
  drain_loop-Feeds (suc rounds) start n b st count s (v ∷ q) d head moved =
      elim (Bool-cases (f st v).1) [
        | inl returns ↦
            let (out, e, feeds) =
              drain_loop-Feeds rounds start (suc n) true (f st v).0 (suc count) (taken n s) q
                (taken-Draining n s v q d) (taken_head head) (inl refl) in
            (
              out,
              step ∙ rw returns e,
              subst (λ o. Feeds start o out) (sym (feed-returns rounds st count v q returns)) feeds,
            )
        | inr panics ↦ (
          cut_short n s (f st v).0 (suc count),
          step ∙ rw panics,
          subst (λ o. Feeds start o (cut_short n s (f st v).0 (suc count)))
              (sym (feed-panics rounds st count v q panics))
              (record {
                state_at = refl;
                count_at = refl;
                exit_at = refl;
                ended = record {
                  position = suc n;
                  draining = taken-Draining n s v q d;
                  at = refl;
                  unpublished = taken_head head;
                  moved = inl refl;
                };
              }),
        )
      ]
    where
      taken_head : s.ring.cursors.head ≡ word start → (taken n s).ring.cursors.head ≡ word start
      taken_head e = ap (λ (c : Cursors). c.head) (cursors-taken n s) ∙ e

      step : drain_loop f (suc rounds) st count (publisher n b) s ≡ (
          if (f st v).1
          then drain_loop f rounds (f st v).0 (suc count) (publisher (suc n) true) (taken n s)
          else some (cut_short n s (f st v).0 (suc count)))
      step = drain_loop-some rounds n b st count s (available-some d) (take_slot-Draining n s v q d)

  -- The publisher, on the normal path and while unwinding, makes the ring hold what is left.
  drop_publisher-Repr :
      {start : ℕ} {d : Drain A S} {q : List A}
      → Ended start d q
      → Repr (drop_publisher d.publisher d.spsc) q
  unfolding drop_publisher
  drop_publisher-Repr {d} {q} e = elim (Bool-cases d.publisher.advanced) [
    | inl advanced ↦ rw (advanced, e.at) (release-Repr e.position d.spsc q e.draining)
    | inr idle ↦ rw idle (Draining-Repr e.draining (e.unpublished ∙ ap word (ground arith)))
  ]

  drain_up_to-some :
      (limit : ℕ) (st : S) (s : Spsc A) {d : Drain A S}
      → drain_loop f limit st 0 (publisher_at s.ring.cursors.head) s ≡ some d
      → drain_up_to f limit st s ≡ some (record d { spsc = drop_publisher d.publisher d.spsc })
  unfolding drain_up_to
  drain_up_to-some limit st s e = rw (drain_up_to, e)

  -- `drain_up_to` hands the oldest items to the callback, at most `limit` of them, and stops early at
  -- an empty ring or when the callback panics; either way the ring then holds exactly the items that
  -- were not handed over.
  pub drain_up_to_refines :
      (limit : ℕ) (st : S) {s : Spsc A} {q : List A}
      → Repr s q
      → let (st', count, exit, q') = Queue.feed f limit st 0 q in
        (d : Drain A S) × (drain_up_to f limit st s ≡ some d)
        × (d.state ≡ st')
        × (d.count ≡ count)
        × (d.exit ≡ exit)
        × Repr d.spsc q'
  drain_up_to_refines limit st {s} {q} r =
      let (d, e, feeds) =
        drain_loop-Feeds limit r.first r.first false st 0 s q (Repr-Draining r) r.items.head_at
          (inr refl) in
      (
        record d { spsc = drop_publisher d.publisher d.spsc },
        drain_up_to-some limit st s
            (ap (λ h. drain_loop f limit st 0 (publisher_at h) s) r.items.head_at ∙ e),
        feeds.state_at,
        feeds.count_at,
        feeds.exit_at,
        drop_publisher-Repr feeds.ended,
      )

  -- With no limit of its own `drain` never stops for one: the items of a ring are fewer than the rounds.
  pub feed-exit :
      (rounds : ℕ) (st : S) (count : ℕ) (q : List A)
      → length q < rounds
      → (Queue.feed f rounds st count q).2 ≢ at_limit
  unfolding Queue.feed
  feed-exit zero st count q h = elim h [ ]
  feed-exit (suc rounds) st count [] h = cc
  feed-exit (suc rounds) st count (v ∷ q) h = elim (Bool-cases (f st v).1) [
    | inl returns ↦ rw returns (feed-exit rounds (f st v).0 (suc count) q (omega arith))
    | inr panics ↦ rw panics (cc)
  ]

  -- `drain` hands over the items in order until the ring is empty or the callback panics, never for
  -- lack of rounds, and the ring then holds exactly the items that were not handed over.
  pub drain_refines :
      (st : S) {s : Spsc A} {q : List A}
      → Repr s q
      → let (st', count, exit, q') = Queue.feed f (suc s.ring.capacity.cap) st 0 q in
        (d : Drain A S) × (drain f st s ≡ some d)
        × (d.state ≡ st')
        × (d.count ≡ count)
        × (d.exit ≡ exit)
        × (d.exit ≢ at_limit)
        × Repr d.spsc q'
  unfolding drain Capacity.get
  drain_refines st {s} {q} r =
      let (d, e, at_state, at_count, at_exit, left) =
        drain_up_to_refines (suc s.ring.capacity.cap) st r in
      (
        d,
        e,
        at_state,
        at_count,
        at_exit,
        rw at_exit (feed-exit (suc s.ring.capacity.cap) st 0 q (omega (arith, r.items.fits))),
        left,
      )
