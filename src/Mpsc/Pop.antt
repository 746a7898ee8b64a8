-- ===== src/Mpsc/Pop.antt =====
-- src/mpsc/consumer.rs: `pop`, `pop_ref` and its gate, on a ring whose producers stand still.
use quetzalcoatl.Common.{
  ℕ, zero, suc, ◌+◌, ◌≤◌, ◌<◌, ◌≡◌, refl, sym, ap, subst, ◌∙◌, Option, none, some, arith,
}
use native.Mathlib.Decide.{dec_lt}
use quetzalcoatl.Capacity
use quetzalcoatl.Mpsc.Ring.{RingBuffer}
use quetzalcoatl.Mpsc.Consumer.{release_tombstone, pop_ready, pop_loop, pop}
use quetzalcoatl.Mpsc.Board.{Fate, unclaimed, pending, sent, dead, IsSettled}
use quetzalcoatl.Mpsc.Repr.{Board-seen, passing, take-Board, Items, release-Items}

module _ {ℓ} {A : Type ℓ} where
  -- The positions from `from` to below `to` were given up.
  pub record Passed (f : ℕ → Fate A) (from to : ℕ) : Type ℓ where
    pub forward : from ≤ to
    pub given_up : (q : ℕ) → from ≤ q → q < to → f q ≡ dead

  Passed-none : (f : ℕ → Fate A) (from : ℕ) → Passed f from from
  Passed-none f from = record {
    forward = omega arith;
    given_up = λ q lo hi. let out : ⊥ = omega arith in absurd out;
  }

  Passed-next :
      (f : ℕ → Fate A) (from from' to : ℕ)
      → from' ≡ suc from
      → f from ≡ dead
      → Passed f from' to
      → Passed f from to
  Passed-next f from from' to e gone k = record {
    forward = omega (arith, k.forward);
    given_up = λ q lo hi. elim (dec_lt from q) [
      | yes after ↦ k.given_up q (omega arith) hi
      | no at ↦ let same : from ≡ q = omega arith in ap f (sym same) ∙ gone
    ];
  }

  -- What a pop that stops at position `p` answers, and where it leaves the head.
  abbrev pub Answers : Option A → Fate A → (p : ℕ) → (head : ℕ) → Type ℓ
  Answers none x p head = (¬ IsSettled x) × (head ≡ p) × Unit {ℓ}
  Answers (some v) x p head = (x ≡ sent v) × (head ≡ suc p)

  -- The outcome of a pop.
  pub record Popped (f : ℕ → Fate A) (r : RingBuffer A) (o : Option A × RingBuffer A) : Type ℓ where
    pub stop : ℕ
    pub passed : Passed f r.cursors.head stop
    pub answer : Answers o.0 (f stop) stop o.1.cursors.head
    pub items : Items f o.1
    pub tail : o.1.cursors.tail ≡ r.cursors.tail
    pub capacity : o.1.capacity ≡ r.capacity

  Popped-later :
      {f : ℕ → Fate A} (r r' : RingBuffer A) {o : Option A × RingBuffer A}
      → f r.cursors.head ≡ dead
      → r'.cursors.head ≡ suc r.cursors.head
      → r'.cursors.tail ≡ r.cursors.tail
      → r'.capacity ≡ r.capacity
      → Popped f r' o
      → Popped f r o
  Popped-later {f} r r' gone next tail cap k = record {
    stop = k.stop;
    passed = Passed-next f r.cursors.head r'.cursors.head k.stop next gone k.passed;
    answer = k.answer;
    items = k.items;
    tail = k.tail ∙ tail;
    capacity = k.capacity ∙ cap;
  }

  Popped-none :
      {f : ℕ → Fate A} (r : RingBuffer A)
      → Items f r
      → ¬ IsSettled (f r.cursors.head)
      → Popped f r (none, r)
  Popped-none {f} r k open_ = record {
    stop = r.cursors.head;
    passed = Passed-none f r.cursors.head;
    answer = (open_, refl, tt);
    items = k;
    tail = refl;
    capacity = refl;
  }

  pop_sent :
      {f : ℕ → Fate A} {v : A} (r : RingBuffer A)
      → Items f r
      → f r.cursors.head ≡ sent v
      → (o : Option A × RingBuffer A) × (pop_ready r.cursors.head r ≡ some o) × Popped f r o
  unfolding pop_ready
  pop_sent {f} {v} r k e =
      let (r₁, taken, k₁, same₁, cap₁) = take-Board r k e in
      let (r₂, freed, k₂, head, tail, cap₂) = release-Items r₁ k₁ (subst IsSettled (sym e) tt) in
      (
        (some v, r₂),
        rw (taken, freed) refl,
        record {
          stop = r.cursors.head;
          passed = Passed-none f r.cursors.head;
          answer = (e, head);
          items = k₂;
          tail = tail ∙ ap (λ c. c.tail) same₁;
          capacity = cap₂ ∙ cap₁;
        },
      )

  pop_loop-Popped :
      {f : ℕ → Fate A} (fuel : ℕ) (r : RingBuffer A) (x : Fate A)
      → Items f r
      → f r.cursors.head ≡ x
      → r.cursors.tail < r.cursors.head + fuel
      → (o : Option A × RingBuffer A) × (pop_loop fuel r ≡ some o) × Popped f r o
  unfolding pop_loop release_tombstone
  pop_loop-Popped zero r x k e lt = let out : ⊥ = omega (arith, k.low) in absurd out
  pop_loop-Popped (suc fuel) r unclaimed k e lt =
      ((none, r), rw (pop_loop, Board-seen k, e) refl, Popped-none r k (λ s. subst IsSettled e s))
  pop_loop-Popped (suc fuel) r (pending i v) k e lt =
      ((none, r), rw (pop_loop, Board-seen k, e) refl, Popped-none r k (λ s. subst IsSettled e s))
  pop_loop-Popped (suc fuel) r (sent v) k e lt =
      let (o, popped, w) = pop_sent r k e in (o, rw (pop_loop, Board-seen k, e) popped, w)
  pop_loop-Popped {f} (suc fuel) r dead k e lt =
      let (r', freed, k', head, tail, cap) =
        release-Items r (passing k) (subst IsSettled (sym e) tt) in
      let (o, popped, w) =
        pop_loop-Popped fuel r' (f r'.cursors.head) k' refl (omega (arith, head, tail, lt)) in
      (o, rw (pop_loop, Board-seen k, e, freed) popped, Popped-later r r' e head tail cap w)

  -- On a ring below half of `usize` whose producers stand still, pop is defined and its loop ends: it
  -- passes over the positions given up and stops at the first other one. If that was published, it
  -- answers with its value and leaves the head behind it; if not, it answers none and leaves the head
  -- there. The slots of the positions from the new head on stay as they are.
  pub pop-Popped :
      {f : ℕ → Fate A} (r : RingBuffer A)
      → Items f r
      → (o : Option A × RingBuffer A) × (pop r ≡ some o) × Popped f r o
  unfolding pop Capacity.get
  pop-Popped {f} r k =
      pop_loop-Popped (suc r.capacity.cap) r (f r.cursors.head) k refl (omega (arith, k.room))
