-- ===== src/Broadcast/Pop.antt =====
-- What a consumer of a broadcast ring receives while the producers and the other consumers stand still.
use quetzalcoatl.Common.{
  ℕ, zero, suc, ◌+◌, ◌-◌, ◌^◌, ◌≤◌, ◌<◌, ◌≡◌, ◌≢◌, refl, sym, ap, subst, ◌∙◌, Option, none, some,
  arith,
}
use quetzalcoatl.Common.Lists.{get_elem?, set, get_elem?-set_self, get_elem?-set_ne, get_elem?-lt}
use quetzalcoatl.Common.Words.{add_usize}
use quetzalcoatl.Capacity
use quetzalcoatl.Capacity.{IsValid}
use quetzalcoatl.Slot.Sequence.{not_ready}
use quetzalcoatl.Broadcast.Registry.{ConsumerSlot, head_of, publish_head_past, update_seat}
use quetzalcoatl.Broadcast.Ring.{RingBuffer, Consumer, wake_producer}
use quetzalcoatl.Broadcast.Consumer.{
  Popped, returned, cloned, advance_head, head_at, classify_at, seek, seek_value, pop,
}
use quetzalcoatl.Broadcast.Log.{
  Logged, SlotOf, slot_classify-value, slot_classify-given_up, classify_at-at, classify_at-tail,
}

module _ {ℓ} {A : Type ℓ} where
  abbrev pub pick : Option A → ℕ → Option (ℕ × A) → Option (ℕ × A)
  pick (some v) pos later = some (pos, v)
  pick none pos later = later

  -- The first value at or after the position `from`, of `n` positions, and where it is.
  abbrev pub next : (ℕ → Option A) → (from n : ℕ) → Option (ℕ × A)
  next log from zero = none
  next log from (suc n) = pick (log from) from (next log (suc from) n)

  -- The seat of a consumer, with its head.
  pub record Seated (c : Consumer) (r : RingBuffer A) (head : ℕ) : Type 0 where
    pub seat : ConsumerSlot
    pub found : get_elem? r.consumers.slots c.slot_index ≡ some seat
    pub here : seat.head ≡ head

  -- The consumer has moved to `head`; the slots, the tail and the other seats are as they were.
  pub record Moved (c : Consumer) (r r' : RingBuffer A) (head : ℕ) : Type ℓ where
    pub rest : r' ≡ record r {
      consumers = r'.consumers;
      producer_park = r'.producer_park;
      unparked = r'.unparked;
    }
    pub mine : Seated c r' head
    pub others :
        (j : ℕ) → j ≢ c.slot_index → get_elem? r'.consumers.slots j ≡ get_elem? r.consumers.slots j

  Moved-Logged :
      {log : ℕ → Option A} {c : Consumer} {r r' : RingBuffer A} {head : ℕ}
      → Moved c r r' head
      → Logged log r
      → Logged log r'
  Moved-Logged {log} m k =
      subst (Logged log) (sym m.rest)
        (record { valid = k.valid; small = k.small; slots = k.slots; unreached = k.unreached })

  Moved-Moved :
      {c : Consumer} {r r₁ r₂ : RingBuffer A} {h₁ h₂ : ℕ}
      → Moved c r r₁ h₁
      → Moved c r₁ r₂ h₂
      → Moved c r r₂ h₂
  Moved-Moved {r₂} m n = record {
    rest =
        n.rest
        ∙ ap
            (λ (x : RingBuffer A). record x {
              consumers = r₂.consumers;
              producer_park = r₂.producer_park;
              unparked = r₂.unparked;
            })
            m.rest;
    mine = n.mine;
    others = λ j ne. n.others j ne ∙ m.others j ne;
  }

  head_at-Seated :
      {c : Consumer} {r : RingBuffer A} {head : ℕ} → Seated c r head → head_at c r ≡ some head
  unfolding head_at head_of
  head_at-Seated s = rw s.found (ap some s.here)

  advance_head-Moved :
      (c : Consumer) (r : RingBuffer A) (old head : ℕ)
      → Seated c r old
      → head < 2 ^ 63
      → (r' : RingBuffer A) × (advance_head head c r ≡ some r') × Moved c r r' (suc head)
  unfolding advance_head publish_head_past update_seat wake_producer
  advance_head-Moved c r old head s small =
      let moved = record (s.seat) { head = add_usize head 1 } in
      let slots = set r.consumers.slots c.slot_index moved in
      (
        wake_producer (record r { consumers = record { slots = slots } }),
        rw s.found refl,
        record {
          rest = refl;
          mine = record {
            seat = moved;
            found =
                get_elem?-set_self r.consumers.slots c.slot_index moved
                  (get_elem?-lt r.consumers.slots c.slot_index s.found);
            here = omega arith;
          };
          others = λ j ne. get_elem?-set_ne r.consumers.slots moved (λ e. ne (sym e));
        },
      )

  abbrev pub halt : Option A → ℕ → ℕ → ℕ
  halt (some v) pos later = pos
  halt none pos later = later

  -- Where the search of the next value leaves the consumer.
  abbrev pub stop : (ℕ → Option A) → (from n : ℕ) → ℕ
  stop log from zero = from
  stop log from (suc n) = halt (log from) from (stop log (suc from) n)

  -- One round of the search, at a position below the tail.
  seek-step :
      (x : Option A) (c : Consumer) (fuel : ℕ) (r : RingBuffer A) (head last : ℕ)
      (later : Option (ℕ × A))
      → IsValid r.capacity
      → SlotOf r.buf r.capacity.cap head x
      → Seated c r head
      → head < 2 ^ 63 - 1
      → ((r₁ : RingBuffer A)
          → Moved c r r₁ (suc head)
          → (r' : RingBuffer A) × (seek fuel c r₁ ≡ some (later, r')) × Moved c r₁ r' last)
      → (r' : RingBuffer A) × (seek (suc fuel) c r ≡ some (pick x head later, r'))
        × Moved c r r' (halt x head last)
  unfolding seek
  seek-step (some v) c fuel r head last later valid o s small go = (
    r,
    rw
        (
          head_at-Seated s,
          classify_at-at r head valid (o.found),
          slot_classify-value (o.here) head v small (o.holds),
        )
        refl,
    record { rest = refl; mine = s; others = λ j ne. refl },
  )
  seek-step none c fuel r head last later valid o s small go =
      let (r₁, e₁, m₁) = advance_head-Moved c r head head s (omega arith) in
      let (r₂, e₂, m₂) = go r₁ m₁ in
      (
        r₂,
        rw
            (
              head_at-Seated s,
              classify_at-at r head valid (o.found),
              slot_classify-given_up (o.here) head small (o.holds),
              e₁,
            )
            e₂,
        Moved-Moved m₁ m₂,
      )

  seek-next :
      (log : ℕ → Option A) (c : Consumer) (n fuel : ℕ) (r : RingBuffer A) (head : ℕ)
      → Logged log r
      → Seated c r head
      → head + n ≡ r.tail
      → n ≤ r.capacity.cap
      → n < fuel
      → (r' : RingBuffer A) × (seek fuel c r ≡ some (next log head n, r'))
        × Moved c r r' (stop log head n)
  unfolding seek
  seek-next log c n zero r head k s at near enough = let out : ⊥ = omega arith in absurd out
  seek-next log c zero (suc fuel) r head k s at near enough =
      let tail : classify_at head r ≡ some not_ready =
        subst (λ h. classify_at h r ≡ some not_ready) (omega arith) (classify_at-tail k) in
      (r, rw (head_at-Seated s, tail) refl, record { rest = refl; mine = s; others = λ j ne. refl })
  seek-next log c (suc n) (suc fuel) r head k s at near enough =
      seek-step (log head) c fuel r head (stop log (suc head) n) (next log (suc head) n) k.valid
        (k.slots head (omega arith) (omega arith)) s (omega (arith, k.small))
        (λ r₁ m.
          let tail : r₁.tail ≡ r.tail = ap (λ x. x.tail) m.rest in
          let cap : r₁.capacity.cap ≡ r.capacity.cap = ap (λ x. x.capacity.cap) m.rest in
          seek-next log c n fuel r₁ (suc head) (Moved-Logged m k) m.mine (omega (arith, tail))
            (omega (arith, cap)) (omega arith))

  -- What a `pop` ends with, from the value found and its clone.
  abbrev pub answer_of : (A → Option A) → Option (ℕ × A) → Popped A
  answer_of clone_of none = returned none
  answer_of clone_of (some item) = cloned (clone_of item.1)

  abbrev pub after : Option (ℕ × A) → ℕ → ℕ
  after none last = last
  after (some item) last = suc item.0

  abbrev Below : Option (ℕ × A) → ℕ → Type 0
  Below none limit = Unit
  Below (some item) limit = item.0 < limit

  pick-Below :
      (x : Option A) (pos limit : ℕ) (later : Option (ℕ × A))
      → pos < limit
      → Below later limit
      → Below (pick x pos later) limit
  pick-Below (some v) pos limit later lt k = lt
  pick-Below none pos limit later lt k = k

  next-Below :
      (log : ℕ → Option A) (from n limit : ℕ) → from + n ≤ limit → Below (next log from n) limit
  next-Below log from zero limit h = tt
  next-Below log from (suc n) limit h =
      pick-Below (log from) from limit (next log (suc from) n) (omega arith)
        (next-Below log (suc from) n limit (omega arith))

  -- The end of `pop`, from what the search found.
  pop-end :
      (clone_of : A → Option A) (found : Option (ℕ × A)) (c : Consumer) (r r₁ : RingBuffer A)
      (last : ℕ)
      → Moved c r r₁ last
      → Below found (2 ^ 63)
      → seek_value c r ≡ some (found, r₁)
      → (r' : RingBuffer A) × (pop clone_of c r ≡ some (answer_of clone_of found, r'))
        × Moved c r r' (after found last)
  unfolding pop
  pop-end clone_of none c r r₁ last m small e = (r₁, rw e refl, m)
  pop-end clone_of (some item) c r r₁ last m small e =
      let (r₂, e₂, m₂) = advance_head-Moved c r₁ last item.0 m.mine small in
      (r₂, rw (e, e₂) refl, Moved-Moved m m₂)

  -- On a ring that holds what `log` says, with a tail below 2^63 - 1 - capacity and the head of a
  -- consumer at most a capacity of positions behind the tail and not ahead of it, `pop` is defined,
  -- whatever the clone of a value is. It passes the positions given up and returns the clone of the
  -- first value at or after that head, or none if no value is left; it unwinds exactly if that clone
  -- panics. In a return and in a panic alike the head has moved past that value, or up to the tail if
  -- there is none; the ring holds what it held, and the other seats are as they were, so another
  -- consumer receives the same values.
  pub pop-next :
      (log : ℕ → Option A) (clone_of : A → Option A) (c : Consumer) (r : RingBuffer A) (head : ℕ)
      → Logged log r
      → Seated c r head
      → head ≤ r.tail
      → r.tail ≤ head + r.capacity.cap
      → let found = next log head (r.tail - head) in
        (r' : RingBuffer A) × (pop clone_of c r ≡ some (answer_of clone_of found, r'))
        × Moved c r r' (after found (stop log head (r.tail - head)))
        × Logged log r'
  unfolding seek_value Capacity.get
  pop-next log clone_of c r head k s low high =
      let n = r.tail - head in
      let (r₁, e, m) =
        seek-next log c n (suc r.capacity.cap) r head k s (omega arith) (omega arith)
          (omega arith) in
      let (r₂, e₂, m₂) =
        pop-end clone_of (next log head n) c r r₁ (stop log head n) m
          (next-Below log head n (2 ^ 63) (omega (arith, k.small))) e in
      (r₂, e₂, m₂, Moved-Logged m₂ k)
