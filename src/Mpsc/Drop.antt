-- ===== src/Mpsc/Drop.antt =====
-- src/mpsc/consumer.rs: the drop of the consumer, on a ring whose producers stand still.
use quetzalcoatl.Common.{
  ℕ, zero, suc, ◌+◌, ◌-◌, ◌<◌, ◌≡◌, refl, sym, ap, subst, ◌∙◌, inl, inr, Bool, Option, none, some,
  List, [], ◌∷◌, arith,
}
use quetzalcoatl.Common.Tests.{Bool-cases}
use quetzalcoatl.Common.Lists.{length}
use quetzalcoatl.Capacity
use quetzalcoatl.Sync.CloseState
use quetzalcoatl.Spsc.Queue
use quetzalcoatl.Mpsc.Ring.{RingBuffer, flush_producers}
use quetzalcoatl.Mpsc.Consumer.{pop, drop_items, drop_consumer}
use quetzalcoatl.Mpsc.Board.{Fate, dead, IsSettled}
use quetzalcoatl.Mpsc.Repr.{Items}
use quetzalcoatl.Mpsc.Pop.{Passed, pop-Popped, Answers}
use quetzalcoatl.Mpsc.Drain.{Waiting, stops, gone, next, Waiting-length}

module _ {ℓ} {A : Type ℓ} {f : ℕ → Fate A} where
  Waiting-gone : {p : ℕ} {q : List A} → f p ≡ dead → Waiting f p q → Waiting f (suc p) q
  Waiting-gone e (stops u) = absurd (u (subst IsSettled (sym e) tt))
  Waiting-gone e (gone e' w) = w
  Waiting-gone e (next e' w) = cc (e, e')

  Waiting-Passed :
      (n from to : ℕ) {q : List A}
      → from + n ≡ to
      → Passed f from to
      → Waiting f from q
      → Waiting f to q
  Waiting-Passed zero from to {q} e k w =
      let here : from ≡ to = omega arith in subst (λ p. Waiting f p q) here w
  Waiting-Passed (suc n) from to e k w =
      Waiting-Passed n (suc from) to (omega arith)
        (record { forward = omega arith; given_up = λ q lo hi. k.given_up q (omega arith) hi })
        (Waiting-gone (k.given_up from (omega arith) (omega arith)) w)

  -- The answer of a pop is the first of the values that wait, and the others wait behind the new head.
  Answers-Waiting :
      (o : Option A) {p head : ℕ} {q : List A}
      → Answers o (f p) p head
      → Waiting f p q
      → (o ≡ (Queue.pop q).0) × Waiting f head (Queue.pop q).1
  unfolding Queue.pop
  Answers-Waiting none (u, e, _) (stops u') = (refl, subst (λ p. Waiting f p []) (sym e) (stops u'))
  Answers-Waiting none (u, e, _) (gone s w) = absurd (u (subst IsSettled (sym s) tt))
  Answers-Waiting none (u, e, _) (next s w) = absurd (u (subst IsSettled (sym s) tt))
  Answers-Waiting (some v) (s, e) (stops u) = absurd (u (subst IsSettled (sym s) tt))
  Answers-Waiting (some v) (s, e) (gone s' w) = cc (s, s')
  Answers-Waiting (some v) (s, e) (next {q} s' w) =
      (cc (s, s'), subst (λ p. Waiting f p q) (sym e) w)

  -- `pop` refines the pop of a queue.
  pop-Waiting :
      (r : RingBuffer A) {q : List A}
      → Items f r
      → Waiting f r.cursors.head q
      → (r' : RingBuffer A) × (pop r ≡ some ((Queue.pop q).0, r'))
        × Items f r'
        × Waiting f r'.cursors.head (Queue.pop q).1
  pop-Waiting r {q} k w =
      let ((o, r'), popped, done) = pop-Popped r k in
      let at =
        Waiting-Passed (done.stop - r.cursors.head) r.cursors.head done.stop
          (omega (arith, done.passed.forward)) done.passed w in
      let (same, rest) = Answers-Waiting o done.answer at in
      (r', popped ∙ ap (λ o. some (o, r')) same, done.items, rest)

  drop_items-Waiting :
      (fuel : ℕ) (returns : A → Bool) (r : RingBuffer A) (q : List A)
      → length q < fuel
      → Items f r
      → Waiting f r.cursors.head q
      → let (dropped, exit, q') = Queue.drop_all returns q in
        (r' : RingBuffer A) × (drop_items fuel returns r ≡ some (dropped, exit, r'))
        × Items f r'
        × Waiting f r'.cursors.head q'
  unfolding drop_items Queue.drop_all Queue.pop
  drop_items-Waiting zero returns r q lt k w = elim lt [ ]
  drop_items-Waiting (suc fuel) returns r [] lt k w =
      let (r', popped, k', w') = pop-Waiting r k w in (r', rw popped refl, k', w')
  drop_items-Waiting (suc fuel) returns r (v ∷ q) lt k w =
      let (r', popped, k', w') = pop-Waiting r k w in
      elim (Bool-cases (returns v)) [
        | inl on ↦
            let (r'', rest, k'', w'') =
              drop_items-Waiting fuel returns r' q (omega (arith, lt)) k' w' in
            rw on (r'', rw (popped, on, rest) refl, k'', w'')
        | inr off ↦ rw off (r', rw (popped, off) refl, k', w')
      ]

  closing-Items :
      (r : RingBuffer A)
      → Items f r
      → Items f
          (flush_producers (record r { consumer_closed = CloseState.close r.consumer_closed }))
  unfolding flush_producers
  closing-Items r k = record {
    valid = k.valid;
    storage = k.storage;
    small = k.small;
    low = k.low;
    room = k.room;
    slots = k.slots;
    ahead = k.ahead;
  }

  -- On a ring below half of `usize` whose producers stand still, the drop of the consumer is defined and
  -- its loop ends: it drops the values that wait behind the head, in order and each once, up to one
  -- whose destructor panics. The values after that one wait behind the new head.
  pub drop_consumer-waiting :
      (returns : A → Bool) (r : RingBuffer A) {q : List A}
      → Items f r
      → Waiting f r.cursors.head q
      → let (dropped, exit, q') = Queue.drop_all returns q in
        (r' : RingBuffer A) × (drop_consumer returns r ≡ some (dropped, exit, r'))
        × Items f r'
        × Waiting f r'.cursors.head q'
  unfolding drop_consumer flush_producers Capacity.get
  drop_consumer-waiting returns r {q} k w =
      drop_items-Waiting (suc r.capacity.cap) returns
        (flush_producers (record r { consumer_closed = CloseState.close r.consumer_closed })) q
        (omega (arith, k.room, Waiting-length r k (omega arith) k.low w)) (closing-Items r k) w
