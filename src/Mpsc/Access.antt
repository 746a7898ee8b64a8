-- ===== src/Mpsc/Access.antt =====
-- The accesses to the slot of a position below 2^63, where its word and its number are the same.
use quetzalcoatl.Common.{ℕ, ◌-◌, ◌%◌, ◌^◌, ◌<◌, ◌≡◌, refl, ap, ◌∙◌, Option, none, some, arith}
use quetzalcoatl.Common.Lists.{get_elem?, set}
use quetzalcoatl.Capacity.{IsValid}
use quetzalcoatl.Capacity.Lap.{index_of-eq-mod}
use quetzalcoatl.Slot.Sequence.{
  SeqSlot, SlotSnapshot, ready, tombstoned, not_ready, slot_classify, classify,
}
use quetzalcoatl.Mpsc.Ring.{RingBuffer, slot, update_slot, take_slot}
use quetzalcoatl.Mpsc.Consumer.{classify_at}
use quetzalcoatl.Mpsc.Board.{Fate, unclaimed, pending, sent, dead, Holds, At}

module _ {ℓ} {A : Type ℓ} where
  slot-at :
      (r : RingBuffer A) {s : SeqSlot A} (p : ℕ)
      → IsValid r.capacity
      → get_elem? r.buf (p % r.capacity.cap) ≡ some s
      → slot p r ≡ some s
  unfolding slot
  slot-at r p v e = ap (get_elem? r.buf) (index_of-eq-mod v p) ∙ e

  pub update_slot-at :
      (f : SeqSlot A → SeqSlot A) (r : RingBuffer A) {s : SeqSlot A} (p : ℕ)
      → IsValid r.capacity
      → get_elem? r.buf (p % r.capacity.cap) ≡ some s
      → update_slot p f r ≡ some (record r { buf = set r.buf (p % r.capacity.cap) (f s) })
  unfolding update_slot
  update_slot-at f r {s} p v e =
      rw (slot-at r p v e)
        (ap (λ i. some (record r { buf = set r.buf i (f s) })) (index_of-eq-mod v p))

  pub take_slot-at :
      (r : RingBuffer A) {s : SeqSlot A} {v : A} (p : ℕ)
      → IsValid r.capacity
      → get_elem? r.buf (p % r.capacity.cap) ≡ some s
      → s.storage ≡ some v
      → take_slot p r
        ≡ some (v, record r { buf = set r.buf (p % r.capacity.cap) (record s { storage = none }) })
  unfolding take_slot
  take_slot-at r p v e held =
      rw (slot-at r p v e, held, update_slot-at (λ s. record s { storage = none }) r p v e) refl

  classify_at-at :
      (r : RingBuffer A) {s : SeqSlot A} (p : ℕ)
      → IsValid r.capacity
      → get_elem? r.buf (p % r.capacity.cap) ≡ some s
      → classify_at p r ≡ some (slot_classify s p)
  unfolding classify_at
  classify_at-at r p v e = rw (slot-at r p v e) refl

  -- What the sequence word says of a position is what its fate says.
  abbrev pub seen : Fate A → SlotSnapshot (Option A)
  seen unclaimed = not_ready
  seen (pending i o) = not_ready
  seen (sent v) = ready (some v)
  seen dead = tombstoned

  seen-Holds :
      (x : Fate A) (p : ℕ) (s : SeqSlot A)
      → p < 2 ^ 63 - 1
      → Holds x p s
      → slot_classify s p ≡ seen x
  unfolding slot_classify classify
  seen-Holds unclaimed p s small (e, h) = ground arith
  seen-Holds (pending i none) p s small (e, h) = ground arith
  seen-Holds (pending i (some v)) p s small (e, h) = ground arith
  seen-Holds (sent v) p s small (e, h) = ground arith
  seen-Holds dead p s small (e, h) = ground arith

  pub classify_at-seen :
      (r : RingBuffer A) {x : Fate A} (p : ℕ)
      → IsValid r.capacity
      → p < 2 ^ 63 - 1
      → At r.buf r.capacity.cap x p
      → classify_at p r ≡ some (seen x)
  classify_at-seen r {x} p v small a =
      classify_at-at r p v a.found ∙ ap some (seen-Holds x p a.here small a.holds)
