-- ===== src/Mpsc/Drain.antt =====
-- src/mpsc/consumer.rs and src/mpsc/batch_release.rs: `drain_up_to` and `drain` on a ring whose producers
-- stand still.
use quetzalcoatl.Common.{
  ℕ, zero, suc, ◌+◌, ◌^◌, ◌≤◌, ◌<◌, ◌≡◌, ◌≢◌, refl, sym, ap, subst, ◌∙◌, inl, inr, Bool, some, List,
  [], ◌∷◌, arith,
}
use quetzalcoatl.Common.Tests.{◌==◌, ==_iff, Bool-cases}
use native.Mathlib.Decide.{dec_lt}
use quetzalcoatl.Common.Lists.{length}
use quetzalcoatl.Spsc.Drain.{feed-exit}
use quetzalcoatl.Capacity
use quetzalcoatl.Sync.Cursors
use quetzalcoatl.Sync.Cursors.{Cursors}
use quetzalcoatl.Slot.Sequence.{not_ready}
use quetzalcoatl.Spsc.Consumer.{Exit, emptied, at_limit, unwound}
use quetzalcoatl.Spsc.Queue
use quetzalcoatl.Mpsc.Ring.{RingBuffer, publish_head, wake_producers}
use quetzalcoatl.Mpsc.Consumer.{
  BatchRelease, batch_at, skip, take, drop_batch, Drain, drain_loop, drain_up_to, drain,
}
use quetzalcoatl.Mpsc.Board.{Fate, unclaimed, pending, sent, dead, IsSettled}
use quetzalcoatl.Mpsc.Access.{seen}
use quetzalcoatl.Mpsc.Repr.{Board, Board-seen, passing, take-Board, release-Board, Items}

-- The batch of a drain that began with the head at `start`.
pub record Batch (start : ℕ) (b : BatchRelease) : Type 0 where
  pub moved : b.released + start ≡ b.head
  pub short : b.delivered ≤ b.released

skip-head : (b : BatchRelease) → b.head < 2 ^ 63 → (skip b).head ≡ suc b.head
unfolding skip
skip-head b small = omega arith

take-head : (b : BatchRelease) → b.head < 2 ^ 63 → (take b).head ≡ suc b.head
unfolding take
take-head b small = omega arith

take-delivered :
    {start : ℕ} (b : BatchRelease)
    → b.head < 2 ^ 63
    → Batch start b
    → (take b).delivered ≡ suc b.delivered
unfolding take
take-delivered b small k = omega (arith, k.moved, k.short)

skip-Batch : {start : ℕ} {b : BatchRelease} → b.head < 2 ^ 63 → Batch start b → Batch start (skip b)
unfolding skip
skip-Batch small k = record {
  moved = omega (arith, k.moved);
  short = omega (arith, k.short, k.moved);
}

take-Batch : {start : ℕ} {b : BatchRelease} → b.head < 2 ^ 63 → Batch start b → Batch start (take b)
unfolding take
take-Batch small k = record {
  moved = omega (arith, k.moved);
  short = omega (arith, k.short, k.moved);
}

module _ {ℓ} {A : Type ℓ} where
  -- The values that wait from position `p` on, up to the first position that is neither published nor
  -- given up; the positions given up are left out.
  pub data Waiting (f : ℕ → Fate A) : ℕ → List A → Type ℓ where
    stops : {p : ℕ} → ¬ IsSettled (f p) → Waiting f p []
    gone : {p : ℕ} {q : List A} → f p ≡ dead → Waiting f (suc p) q → Waiting f p q
    next : {p : ℕ} {v : A} {q : List A} → f p ≡ sent v → Waiting f (suc p) q → Waiting f p (v ∷ q)

  seen-open : (x : Fate A) → ¬ IsSettled x → seen x ≡ not_ready
  seen-open unclaimed u = refl
  seen-open (pending i o) u = refl
  seen-open (sent v) u = absurd (u tt)
  seen-open dead u = absurd (u tt)

module _ {ℓ κ} {A : Type ℓ} {S : Type κ} (g : S → A → S × Bool) (f : ℕ → Fate A) (start : ℕ)
    (c : Cursors) where
  -- The loop has done what feeding the callback from a queue gives.
  record Feeds (out : S × ℕ × Exit × List A) (d : Drain A S) : Type (ℓ ⊔ κ) where
    state_at : d.state ≡ out.0
    count_at : d.batch.delivered ≡ out.1
    exit_at : d.exit ≡ out.2
    waits : Waiting f d.batch.head out.3
    board : Board f d.batch.head d.batch.head d.ring
    batch_at : Batch start d.batch
    cursors_at : d.ring.cursors ≡ c

  -- The position after the one at which the slot was given back.
  stepped :
      {head head' : ℕ} {q : List A} {r : RingBuffer A}
      → head' ≡ suc head
      → Board f (suc head) (suc head) r
      → Waiting f (suc head) q
      → Board f head' head' r × Waiting f head' q
  stepped {q} {r} e k w =
      (subst (λ h. Board f h h r) (sym e) k, subst (λ h. Waiting f h q) (sym e) w)

  drain_loop-Feeds :
      (fuel limit : ℕ) (st : S) (b : BatchRelease) (r : RingBuffer A) (q : List A)
      → Board f b.head b.head r
      → Batch start b
      → Waiting f b.head q
      → r.cursors ≡ c
      → r.cursors.tail < b.head + fuel
      → (d : Drain A S) × (drain_loop g fuel limit st b r ≡ some d)
        × Feeds (Queue.feed g limit st b.delivered q) d
  unfolding drain_loop Queue.feed skip
  drain_loop-Feeds zero limit st b r q k n w same lt =
      let out : ⊥ = omega (arith, k.low) in absurd out
  drain_loop-Feeds (suc fuel) zero st b r q k n w same lt = (
    record { state = st; exit = at_limit; batch = b; ring = r },
    refl,
    record {
      state_at = refl;
      count_at = refl;
      exit_at = refl;
      waits = w;
      board = k;
      batch_at = n;
      cursors_at = same;
    },
  )
  drain_loop-Feeds (suc fuel) (suc limit) st b r q k n (stops u) same lt = (
    record { state = st; exit = emptied; batch = b; ring = r },
    rw (Board-seen k, seen-open (f b.head) u) refl,
    record {
      state_at = refl;
      count_at = refl;
      exit_at = refl;
      waits = stops u;
      board = k;
      batch_at = n;
      cursors_at = same;
    },
  )
  drain_loop-Feeds (suc fuel) (suc limit) st b r q k n (gone e w) same lt =
      let small : b.head < 2 ^ 63 = omega (arith, k.small, k.low) in
      let (r', freed, k', kept, cap) = release-Board r (passing k) (subst IsSettled (sym e) tt) in
      let at = skip-head b small in
      let (k'', w') = stepped at k' w in
      let (d, done, feeds) =
        drain_loop-Feeds fuel (suc limit) st (skip b) r' q k'' (skip-Batch small n) w' (kept ∙ same)
          (omega (arith, lt, at, ap (λ (c : Cursors). c.tail) kept)) in
      (d, rw (Board-seen k, e, freed) done, feeds)
  drain_loop-Feeds (suc fuel) (suc limit) st b r (v ∷ q) k n (next e w) same lt =
      let small : b.head < 2 ^ 63 = omega (arith, k.small, k.low) in
      let settled = subst IsSettled (sym e) tt in
      let (r₁, taken, k₁, kept₁, cap₁) = take-Board r k e in
      let (r₂, freed, k₂, kept₂, cap₂) = release-Board r₁ k₁ settled in
      let kept = kept₂ ∙ kept₁ in
      let at = take-head b small in
      let (k₃, w') = stepped at k₂ w in
      elim (Bool-cases (g st v).1) [
        | inl returns ↦
            let (d, done, feeds) =
              drain_loop-Feeds fuel limit (g st v).0 (take b) r₂ q k₃ (take-Batch small n) w'
                (kept ∙ same) (omega (arith, lt, at, ap (λ (c : Cursors). c.tail) kept)) in
            (
              d,
              rw (Board-seen k, e, taken, freed, returns) done,
              rw returns (
                  subst (λ n. Feeds (Queue.feed g limit (g st v).0 n q) d)
                    (take-delivered b small n) feeds),
            )
        | inr panics ↦ (
          record { state = (g st v).0; exit = unwound; batch = take b; ring = r₂ },
          rw (Board-seen k, e, taken, freed, panics) refl,
          rw panics (record {
            state_at = refl;
            count_at = take-delivered b small n;
            exit_at = refl;
            waits = w';
            board = k₃;
            batch_at = take-Batch small n;
            cursors_at = kept ∙ same;
          }),
        )
      ]

module _ {ℓ} {A : Type ℓ} where
  -- The end of a drain: the head is published, unless nothing was passed.
  drop_batch-Items :
      {f : ℕ → Fate A} (b : BatchRelease) (r : RingBuffer A)
      → Board f b.head b.head r
      → Batch r.cursors.head b
      → Items f (drop_batch b r) × ((drop_batch b r).cursors.head ≡ b.head)
  unfolding drop_batch wake_producers publish_head Cursors.publish_head
  drop_batch-Items {f} b r k n = elim (Bool-cases (b.released == 0)) [
    | inl none_ ↦
        let at : b.head ≡ r.cursors.head = omega (arith, n.moved, (==_iff b.released 0).0 none_) in
        rw none_ (subst (λ h. Board f h h r) at k, sym at)
    | inr some_ ↦ rw some_ (
      record {
        valid = k.valid;
        storage = k.storage;
        small = k.small;
        low = k.low;
        room = k.room;
        slots = k.slots;
        ahead = k.ahead;
      },
      refl,
    )
  ]

  settled_below :
      {f : ℕ → Fate A} {from : ℕ} {r : RingBuffer A}
      → Board f from from r
      → (p : ℕ) → IsSettled (f p)
      → p < r.cursors.tail
  settled_below {r} k p s = elim (dec_lt p r.cursors.tail) [
    | yes below ↦ below
    | no above ↦ absurd (subst IsSettled (k.ahead p (omega arith)) s)
  ]

  pub Waiting-length :
      {f : ℕ → Fate A} {from p : ℕ} {q : List A} (r : RingBuffer A)
      → Board f from from r
      → from ≤ p
      → p ≤ r.cursors.tail
      → Waiting f p q
      → length q + p ≤ r.cursors.tail
  Waiting-length r k from le (stops u) = omega arith
  Waiting-length {f} {p} r k from le (gone e w) =
      let below = settled_below k p (subst IsSettled (sym e) tt) in
      omega (arith, Waiting-length r k (omega arith) below w)
  Waiting-length {p} r k from le (next e w) =
      let below = settled_below k p (subst IsSettled (sym e) tt) in
      omega (arith, Waiting-length r k (omega arith) below w)

module _ {ℓ κ} {A : Type ℓ} {S : Type κ} (g : S → A → S × Bool) where
  -- On a ring below half of `usize` whose producers stand still, drain_up_to is defined and its loop
  -- ends: it hands the values that wait behind the head to the callback, in order and at most the limit
  -- of them, and stops early when none is left or the callback panics. The positions given up are passed
  -- over and not counted. In every case the values not handed over are those that wait behind the new
  -- head.
  pub drain_up_to-waiting :
      {f : ℕ → Fate A} (limit : ℕ) (st : S) (r : RingBuffer A) {q : List A}
      → Items f r
      → Waiting f r.cursors.head q
      → let (st', count, exit, q') = Queue.feed g limit st 0 q in
        (d : Drain A S) × (drain_up_to g limit st r ≡ some d)
        × (d.state ≡ st')
        × (d.batch.delivered ≡ count)
        × (d.exit ≡ exit)
        × Items f d.ring
        × Waiting f d.ring.cursors.head q'
  unfolding drain_up_to Capacity.get
  drain_up_to-waiting {f} limit st r {q} k w =
      let (d, done, feeds) =
        drain_loop-Feeds g f r.cursors.head r.cursors (suc r.capacity.cap) limit st
          (batch_at r.cursors.head) r q k (record { moved = omega arith; short = omega arith }) w
          refl (omega (arith, k.room)) in
      let n = subst (λ (c : Cursors). Batch c.head d.batch) (sym feeds.cursors_at) feeds.batch_at in
      let (items, head) = drop_batch-Items d.batch d.ring feeds.board n in
      (
        record d { ring = drop_batch d.batch d.ring },
        rw done refl,
        feeds.state_at,
        feeds.count_at,
        feeds.exit_at,
        items,
        subst (λ h. Waiting f h (Queue.feed g limit st 0 q).3) (sym head) feeds.waits,
      )

  -- A drain ends only because no value waits behind the head or the callback panics.
  pub drain-ends :
      {f : ℕ → Fate A} (st : S) (r : RingBuffer A) {q : List A}
      → Items f r
      → Waiting f r.cursors.head q
      → (d : Drain A S) × (drain g st r ≡ some d) × (d.exit ≢ at_limit)
  unfolding drain Capacity.get
  drain-ends st r {q} k w =
      let (d, done, state, count, exit, items, waits) =
        drain_up_to-waiting (suc r.capacity.cap) st r k w in
      (
        d,
        done,
        rw exit (
            feed-exit g (suc r.capacity.cap) st 0 q
              (omega (arith, k.room, Waiting-length r k (omega arith) k.low w))),
      )
