-- ===== src/Mpsc/Repr.antt =====
-- What an mpsc ring holds while the consumer works alone: the fates of the positions, with the slots
-- from `from` on not yet taken, and every step of the consumer on such a ring.
use native.Mathlib.Nat.{mod-lt, add-mod_right}
use quetzalcoatl.Common.{
  ℕ, suc, ◌+◌, ◌-◌, ◌%◌, ◌^◌, ◌≤◌, ◌<◌, ◌≡◌, refl, sym, ap, subst, ◌∙◌, none, some, arith,
}
use native.Mathlib.Decide.{dec_lt}
use quetzalcoatl.Common.Lists.{length, set, length-set, get_elem?-set_ne, get_elem?-inside}
use quetzalcoatl.Common.Words.{add_usize}
use quetzalcoatl.Capacity
use quetzalcoatl.Capacity.{IsValid}
use quetzalcoatl.Capacity.Lap.{cap_pos, mod-ne}
use quetzalcoatl.Sync.Cursors
use quetzalcoatl.Sync.Cursors.{Cursors}
use quetzalcoatl.Slot.Sequence
use quetzalcoatl.Slot.Sequence.{SeqSlot}
use quetzalcoatl.Mpsc.Ring.{
  RingBuffer, take_slot, release_slot, publish_head, wake_producer, on_sequence,
}
use quetzalcoatl.Mpsc.Consumer.{classify_at, release}
use quetzalcoatl.Mpsc.Board.{Fate, unclaimed, sent, IsSettled, Slots, Slots-set, Holds, At}
use quetzalcoatl.Mpsc.Access.{update_slot-at, take_slot-at, seen, classify_at-seen}

module _ {ℓ} {A : Type ℓ} where
  -- The positions below `from` are done with; the slots of those from `lo` on say what became of them.
  pub record Board (f : ℕ → Fate A) (from lo : ℕ) (r : RingBuffer A) : Type ℓ where
    pub valid : IsValid r.capacity
    pub storage : length r.buf ≡ r.capacity.cap
    pub small : r.cursors.tail + r.capacity.cap < 2 ^ 63 - 1
    pub low : from ≤ r.cursors.tail
    pub room : r.cursors.tail ≤ from + r.capacity.cap
    pub slots : Slots r.buf r.capacity.cap f lo (from + r.capacity.cap)
    pub ahead : (p : ℕ) → r.cursors.tail ≤ p → f p ≡ unclaimed

  pub Board-seen :
      {f : ℕ → Fate A} {from : ℕ} {r : RingBuffer A}
      → Board f from from r
      → classify_at from r ≡ some (seen (f from))
  Board-seen {from} {r} k =
      classify_at-seen r from k.valid (omega (arith, k.small, k.low))
        (k.slots from (omega arith) (omega (arith, cap_pos k.valid)))

  Board-below :
      {f : ℕ → Fate A} {from lo : ℕ} {r : RingBuffer A}
      → Board f from lo r
      → IsSettled (f from)
      → from < r.cursors.tail
  Board-below {from} {r} k s = elim (dec_lt from r.cursors.tail) [
    | yes below ↦ below
    | no above ↦ absurd (subst IsSettled (k.ahead from (omega arith)) s)
  ]

  -- The word of a slot that is passed over does not matter.
  pub passing :
      {f : ℕ → Fate A} {from : ℕ} {r : RingBuffer A}
      → Board f from from r
      → Board f from (suc from) r
  passing k = record {
    valid = k.valid;
    storage = k.storage;
    small = k.small;
    low = k.low;
    room = k.room;
    slots = λ p lo hi. k.slots p (omega arith) hi;
    ahead = k.ahead;
  }

  -- The value at `from` is moved out.
  pub take-Board :
      {f : ℕ → Fate A} {from : ℕ} {v : A} (r : RingBuffer A)
      → Board f from from r
      → f from ≡ sent v
      → (r' : RingBuffer A) × (take_slot from r ≡ some (v, r'))
        × Board f from (suc from) r'
        × (r'.cursors ≡ r.cursors)
        × (r'.capacity ≡ r.capacity)
  take-Board {f} {from} {v} r k e =
      let m = r.capacity.cap in
      let a =
        subst (λ x. At r.buf m x from) e
          (k.slots from (omega arith) (omega (arith, cap_pos k.valid))) in
      let s = record (a.here) { storage = none } in
      (
        record r { buf = set r.buf (from % m) s },
        take_slot-at r from k.valid a.found a.holds.1,
        record {
          valid = k.valid;
          storage = length-set r.buf (from % m) s ∙ k.storage;
          small = k.small;
          low = k.low;
          room = k.room;
          slots = λ q lo hi.
              let old = k.slots q (omega arith) hi in
              record {
                here = old.here;
                found =
                    get_elem?-set_ne r.buf s (mod-ne m from q (cap_pos k.valid) lo hi) ∙ old.found;
                holds = old.holds;
              };
          ahead = k.ahead;
        },
        refl,
        refl,
      )

  -- The slot at `from` is given to the next lap.
  pub release-Board :
      {f : ℕ → Fate A} {from : ℕ} (r : RingBuffer A) (k : Board f from (suc from) r)
      → IsSettled (f from)
      → (r' : RingBuffer A) × (release_slot from r ≡ some r')
        × Board f (suc from) (suc from) r'
        × (r'.cursors ≡ r.cursors)
        × (r'.capacity ≡ r.capacity)
  unfolding release_slot Sequence.release Capacity.get
  release-Board {f} {from} r k s =
      let m = r.capacity.cap in
      let (here, found) =
        get_elem?-inside r.buf (from % m) (rw k.storage (mod-lt from (cap_pos k.valid))) in
      let given = on_sequence (Sequence.release from r.capacity) here in
      (
        record r { buf = set r.buf (from % m) given },
        update_slot-at (on_sequence (Sequence.release from r.capacity)) r from k.valid found,
        record {
          valid = k.valid;
          storage = length-set r.buf (from % m) given ∙ k.storage;
          small = k.small;
          low = Board-below k s;
          room = omega (arith, k.room);
          slots =
              Slots-set r.buf m f f (suc from) (from + m) (suc from) (suc from + m) (from % m)
                (from + m) given k.slots (rw k.storage (mod-lt from (cap_pos k.valid)))
                (sym (add-mod_right from m))
                (subst (λ x. Holds x (from + m) given) (sym (k.ahead (from + m) k.room))
                  (omega (arith, k.small, k.low), tt))
                (λ q lo hi ne. (
                  lo,
                  omega arith,
                  refl,
                  mod-ne m from q (cap_pos k.valid) (omega arith) (omega arith),
                ));
          ahead = k.ahead;
        },
        refl,
        refl,
      )

  -- The head is published and a producer woken.
  pub publish-Board :
      {f : ℕ → Fate A} {from : ℕ} (head : ℕ) (r : RingBuffer A)
      → Board f from from r
      → Board f from from (wake_producer (publish_head head r))
  unfolding wake_producer publish_head Cursors.publish_head
  publish-Board head r k = record {
    valid = k.valid;
    storage = k.storage;
    small = k.small;
    low = k.low;
    room = k.room;
    slots = k.slots;
    ahead = k.ahead;
  }

  -- A ring whose head is where the consumer stands.
  abbrev pub Items : (ℕ → Fate A) → RingBuffer A → Type ℓ
  Items f r = Board f r.cursors.head r.cursors.head r

  -- The slot at the head is given back and the head moves on.
  pub release-Items :
      {f : ℕ → Fate A} {head : ℕ} (r : RingBuffer A)
      → Board f head (suc head) r
      → IsSettled (f head)
      → (r' : RingBuffer A) × (release head r ≡ some r')
        × Items f r'
        × (r'.cursors.head ≡ suc head)
        × (r'.cursors.tail ≡ r.cursors.tail)
        × (r'.capacity ≡ r.capacity)
  unfolding release wake_producer publish_head Cursors.publish_head
  release-Items {f} {head} r k s =
      let (r₁, e, k₁, same, cap) = release-Board r k s in
      let next : suc head ≡ add_usize head 1 = omega (arith, k.small, k.low) in
      (
        wake_producer (publish_head (add_usize head 1) r₁),
        rw (release, e) refl,
        subst (λ h. Board f h h (wake_producer (publish_head (add_usize head 1) r₁))) next
            (publish-Board (add_usize head 1) r₁ k₁),
        sym next,
        ap (λ (c : Cursors). c.tail) same,
        cap,
      )
