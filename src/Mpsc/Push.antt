-- ===== src/Mpsc/Push.antt =====
-- src/mpsc/producer.rs: `push` on a ring whose other threads stand still.
use native.Mathlib.Nat.{mod-lt}
use quetzalcoatl.Common.{
  ℕ, zero, suc, ◌+◌, ◌-◌, ◌*◌, ◌%◌, ◌^◌, ◌≤◌, ◌<◌, ◌≡◌, refl, sym, subst, ◌∙◌, inl, inr, true,
  false, none, some, List, arith,
}
use native.Mathlib.Decide.{dec_lt}
use quetzalcoatl.Common.Tests.{◌==◌, ==_iff, Bool-cases}
use quetzalcoatl.Common.Lists.{length, get_elem?, set, length-set, get_elem?-set_self}
use quetzalcoatl.Common.Words.{add_usize}
use quetzalcoatl.Capacity
use quetzalcoatl.Capacity.Lap.{cap_pos, cap-le}
use quetzalcoatl.Sync.Cursors
use quetzalcoatl.Slot.Sequence
use quetzalcoatl.Slot.Sequence.{SeqSlot}
use quetzalcoatl.Spsc.Producer.{PushResult, ok, err}
use quetzalcoatl.Mpsc.Ring.{RingBuffer, Producer, write_slot, publish_slot, wake_consumer}
use quetzalcoatl.Mpsc.Producer.{check_room, swap_tail, claim_loop, claim_slot, publish, push}
use quetzalcoatl.Mpsc.Board.{
  Fate, pending, sent, update, update_self, update-ne, Slots, Slots-set, Holds, At,
}
use quetzalcoatl.Mpsc.Access.{update_slot-at}
use quetzalcoatl.Mpsc.Threads.Frame.{mod-apart}
use quetzalcoatl.Mpsc.Repr.{Items}

module _ {ℓ} {A : Type ℓ} where
  Slots-write :
      (buf : List (SeqSlot A)) (m lo p : ℕ) (f : ℕ → Fate A) (x : Fate A) (s : SeqSlot A)
      → 0 < m
      → length buf ≡ m
      → lo ≤ p
      → p < lo + m
      → Holds x p s
      → Slots buf m f lo (lo + m)
      → Slots (set buf (p % m) s) m (update f p x) lo (lo + m)
  Slots-write buf m lo p f x s pos size from below now slots =
      Slots-set buf m f (update f p x) lo (lo + m) lo (lo + m) (p % m) p s slots
        (rw size (mod-lt p pos)) refl (subst (λ x. Holds x p s) (sym (update_self f p x)) now)
        (λ q lo' hi ne. (
          lo',
          hi,
          update-ne f p q x ne,
          mod-apart m lo p q pos from below lo' hi (λ e. ne (sym e)),
        ))

  update-update :
      (f : ℕ → Fate A) (p q : ℕ) (a b : Fate A) → update (update f p a) p b q ≡ update f p b q
  update-update f p q a b = elim (Bool-cases (q == p)) [
    | inl same ↦ rw same refl
    | inr other ↦ rw other refl
  ]

  module _ {f : ℕ → Fate A} (p : Producer) {r : RingBuffer A} (k : Items f r)
      (old : p.cached_head ≤ r.cursors.head) where
    check_room-granted :
        r.cursors.tail < r.cursors.head + r.capacity.cap → (check_room r.cursors.tail p r).0 ≡ true
    unfolding check_room Capacity.get
    check_room-granted h = ground (arith, cap-le k.valid, k.small, k.low)

    check_room-refused :
        r.cursors.head + r.capacity.cap ≤ r.cursors.tail → (check_room r.cursors.tail p r).0 ≡ false
    unfolding check_room Capacity.get
    check_room-refused h = ground (arith, cap-le k.valid, k.small, k.low)

    check_room-cached : (check_room r.cursors.tail p r).1.cached_head ≤ r.cursors.head
    unfolding check_room Capacity.get
    check_room-cached = ground (arith, cap-le k.valid, k.small, k.low)

  claim_loop-refused :
      {f : ℕ → Fate A} (spurious : ℕ) (p : Producer) (r : RingBuffer A)
      → Items f r
      → p.cached_head ≤ r.cursors.head
      → r.cursors.head + r.capacity.cap ≤ r.cursors.tail
      → claim_loop spurious r.cursors.tail p r ≡ some (none, (check_room r.cursors.tail p r).1, r)
  unfolding claim_loop
  claim_loop-refused zero p r k old h = rw (check_room-refused p k old h) refl
  claim_loop-refused (suc n) p r k old h = rw (check_room-refused p k old h) refl

  abbrev claimed : RingBuffer A → RingBuffer A
  claimed r = record r { cursors = record (r.cursors) { tail = add_usize r.cursors.tail 1 } }

  claim_loop-granted :
      {f : ℕ → Fate A} (spurious : ℕ) (p : Producer) (r : RingBuffer A)
      → Items f r
      → p.cached_head ≤ r.cursors.head
      → r.cursors.tail < r.cursors.head + r.capacity.cap
      → (p' : Producer) × (claim_loop spurious r.cursors.tail p r
          ≡ some (some r.cursors.tail, p', claimed r))
        × (p'.cached_head ≤ r.cursors.head)
  unfolding claim_loop swap_tail Cursors.publish_tail
  claim_loop-granted zero p r k old h = (
    (check_room r.cursors.tail p r).1,
    rw (check_room-granted p k old h, (==_iff r.cursors.tail r.cursors.tail).1 refl) refl,
    check_room-cached p k old,
  )
  claim_loop-granted (suc n) p r k old h =
      let (p', e, old') =
        claim_loop-granted n (check_room r.cursors.tail p r).1 r k (check_room-cached p k old) h in
      (p', rw (check_room-granted p k old h) e, old')

  -- The slot of a position that was just claimed, written and published.
  abbrev written : A → SeqSlot A → SeqSlot A
  written v s = record s { storage = some v }

  abbrev published : ℕ → SeqSlot A → SeqSlot A
  published pos s = record s { sequence = Sequence.publish pos s.sequence }

  abbrev filled : ℕ → A → SeqSlot A → RingBuffer A → RingBuffer A
  filled pos v s r = record r {
    buf =
        set (set r.buf (pos % r.capacity.cap) (written v s)) (pos % r.capacity.cap)
          (published pos (written v s));
  }

  push_writes :
      (pos : ℕ) {s : SeqSlot A} (v : A) (r : RingBuffer A)
      → Capacity.IsValid r.capacity
      → length r.buf ≡ r.capacity.cap
      → get_elem? r.buf (pos % r.capacity.cap) ≡ some s
      → (write_slot pos v r
          ≡ some (record r { buf = set r.buf (pos % r.capacity.cap) (written v s) }))
        × (publish pos (record r { buf = set r.buf (pos % r.capacity.cap) (written v s) })
            ≡ some (wake_consumer (filled pos v s r)))
  unfolding write_slot publish publish_slot
  push_writes pos {s} v r valid size e =
      let i = pos % r.capacity.cap in
      let here = get_elem?-set_self r.buf i (written v s) (rw size (mod-lt pos (cap_pos valid))) in
      (
        update_slot-at (written v) r pos valid e,
        rw
            (update_slot-at (published pos) (record r { buf = set r.buf i (written v s) }) pos valid
              here)
            refl,
      )

  filled-Slots :
      {f : ℕ → Fate A} (s : SeqSlot A) (v : A) (r : RingBuffer A) (k : Items f r)
      → r.cursors.tail < r.cursors.head + r.capacity.cap
      → s.sequence.at ≡ r.cursors.tail * 2
      → Slots
          (filled r.cursors.tail v s r).buf
          r.capacity.cap
          (update f r.cursors.tail (sent v))
          r.cursors.head
          (r.cursors.head + r.capacity.cap)
  unfolding Sequence.publish
  filled-Slots {f} s v r k room free =
      let pos = r.cursors.tail in
      let m = r.capacity.cap in
      let head = r.cursors.head in
      let buf = set r.buf (pos % m) (written v s) in
      λ q lo hi.
        subst (λ x. At (filled pos v s r).buf m x q)
          (update-update f pos q (pending 0 (some v)) (sent v))
          (Slots-write buf m head pos (update f pos (pending 0 (some v))) (sent v)
            (published pos (written v s)) (cap_pos k.valid)
            (length-set r.buf (pos % m) (written v s) ∙ k.storage) k.low room
            (omega (arith, k.small), refl)
            (Slots-write r.buf m head pos f (pending 0 (some v)) (written v s) (cap_pos k.valid)
              k.storage k.low room (free, refl) k.slots)
            q lo hi)

  filled-Items :
      {f : ℕ → Fate A} (s : SeqSlot A) (v : A) (r : RingBuffer A) (k : Items f r)
      → r.cursors.tail < r.cursors.head + r.capacity.cap
      → r.cursors.tail + 1 + r.capacity.cap < 2 ^ 63 - 1
      → s.sequence.at ≡ r.cursors.tail * 2
      → Items
          (update f r.cursors.tail (sent v))
          (wake_consumer (filled r.cursors.tail v s (claimed r)))
  unfolding wake_consumer
  filled-Items {f} s v r k room small free = record {
    valid = k.valid;
    storage =
        length-set _ (r.cursors.tail % r.capacity.cap) _
        ∙ length-set r.buf (r.cursors.tail % r.capacity.cap) _
        ∙ k.storage;
    small = omega arith;
    low = omega (arith, k.low, k.small);
    room = omega (arith, k.small);
    slots = filled-Slots s v r k room free;
    ahead = λ q le.
        update-ne f r.cursors.tail q (sent v) (omega (arith, k.small))
        ∙ k.ahead q (omega (arith, k.small));
  }

  -- What becomes of a push.
  pub data Pushed (f : ℕ → Fate A) (v : A) (r : RingBuffer A)
      : PushResult A → RingBuffer A → Type ℓ where
    accepted :
        {r' : RingBuffer A}
        → r.cursors.tail < r.cursors.head + r.capacity.cap
        → Items (update f r.cursors.tail (sent v)) r'
        → r'.cursors.head ≡ r.cursors.head
        → r'.cursors.tail ≡ suc r.cursors.tail
        → Pushed f v r ok r'
    refused : r.cursors.head + r.capacity.cap ≤ r.cursors.tail → Pushed f v r (err v) r

  push_granted :
      {f : ℕ → Fate A} (spurious : ℕ) (v : A) (p : Producer) (r : RingBuffer A)
      → Items f r
      → p.cached_head ≤ r.cursors.head
      → r.cursors.tail + 1 + r.capacity.cap < 2 ^ 63 - 1
      → r.cursors.tail < r.cursors.head + r.capacity.cap
      → (p' : Producer) × (r' : RingBuffer A) × (push spurious v p r ≡ some (ok, p', r'))
        × (p'.cached_head ≤ r.cursors.head)
        × Pushed f v r ok r'
  unfolding push claim_slot wake_consumer
  push_granted {f} spurious v p r k old small room =
      let (p', claim, old') = claim_loop-granted spurious p r k old room in
      let a = k.slots r.cursors.tail k.low room in
      let free =
        subst (λ x. Holds x r.cursors.tail a.here) (k.ahead r.cursors.tail (omega arith)) a.holds in
      let (wrote, announced) = push_writes r.cursors.tail v (claimed r) k.valid k.storage a.found in
      (
        p',
        wake_consumer (filled r.cursors.tail v a.here (claimed r)),
        rw (claim, wrote, announced) refl,
        old',
        accepted room (filled-Items a.here v r k room small free.0) refl (omega arith),
      )

  -- On a ring below half of `usize` whose other threads stand still, a push by a handle whose cached
  -- head is not ahead of the ring's publishes its value at the tail if fewer positions are claimed than
  -- the ring has slots; if not, it hands the value back and leaves the ring as it was. It is defined in
  -- both cases, however often the weak swap fails for no reason.
  pub push-Pushed :
      {f : ℕ → Fate A} (spurious : ℕ) (v : A) (p : Producer) (r : RingBuffer A)
      → Items f r
      → p.cached_head ≤ r.cursors.head
      → r.cursors.tail + 1 + r.capacity.cap < 2 ^ 63 - 1
      → (o : PushResult A) × (p' : Producer) × (r' : RingBuffer A) × (push spurious v p r
          ≡ some (o, p', r'))
        × (p'.cached_head ≤ r.cursors.head)
        × Pushed f v r o r'
  unfolding push claim_slot
  push-Pushed spurious v p r k old small =
      elim (dec_lt r.cursors.tail (r.cursors.head + r.capacity.cap)) [
        | yes room ↦
            let (p', r', e, old', w) = push_granted spurious v p r k old small room in
            (ok, p', r', e, old', w)
        | no full ↦
            let h : r.cursors.head + r.capacity.cap ≤ r.cursors.tail = omega arith in
            (
              err v,
              (check_room r.cursors.tail p r).1,
              r,
              rw (claim_loop-refused spurious p r k old h) refl,
              check_room-cached p k old,
              refused h,
            )
      ]
