-- ===== src/Broadcast/Log.antt =====
-- What the slots of a broadcast ring hold while no claim is in progress.
use native.Mathlib.Nat.{add-mod_right}
use native.Mathlib.Decide.{dec_lt}
use quetzalcoatl.Common.{
  ℕ, ◌+◌, ◌-◌, ◌%◌, ◌^◌, ◌≤◌, ◌<◌, ◌≡◌, ◌≢◌, refl, sym, ap, ◌∙◌, Option, none, some, List, arith,
  false,
}
use quetzalcoatl.Common.Tests.{◌==◌, ==_iff}
use quetzalcoatl.Common.Lists.{get_elem?}
use quetzalcoatl.Capacity.{IsValid}
use quetzalcoatl.Capacity.Lap.{cap_pos, index_of-eq-mod}
use quetzalcoatl.Slot.Sequence.{ready, tombstoned, not_ready}
use quetzalcoatl.Slot.State
use quetzalcoatl.Slot.State.{
  SequenceWord, published_word, abandoned_word, classify_as, decode, decode-published,
  decode-abandoned, decode-vacant,
}
use quetzalcoatl.Broadcast.Ring.{BroadcastSlot, RingBuffer, slot, slot_classify}
use quetzalcoatl.Broadcast.Consumer.{classify_at}

module _ {ℓ} {A : Type ℓ} where
  -- What the slot of a position holds, when the position was published with a value, or given up.
  abbrev pub HoldsAt : Option A → ℕ → BroadcastSlot A → Type ℓ
  HoldsAt (some v) p s = (s.sequence.at ≡ published_word p) × (s.data_ ≡ some v)
  HoldsAt none p s = (s.sequence.at ≡ abandoned_word p) × Unit {ℓ}

  pub record SlotOf (buf : List (BroadcastSlot A)) (m p : ℕ) (x : Option A) : Type ℓ where
    pub here : BroadcastSlot A
    pub found : get_elem? buf (p % m) ≡ some here
    pub holds : HoldsAt x p here

  -- The last positions of the ring, a capacity of them, were published with the value that `log` has, or
  -- given up where it has none; the slots that no position has reached are vacant.
  pub record Logged (log : ℕ → Option A) (r : RingBuffer A) : Type ℓ where
    pub valid : IsValid r.capacity
    pub small : r.tail + r.capacity.cap < 2 ^ 63 - 1
    pub slots :
        (p : ℕ) → p < r.tail → r.tail ≤ p + r.capacity.cap → SlotOf r.buf r.capacity.cap p (log p)
    pub unreached :
        (p : ℕ)
        → r.tail ≤ p
        → p < r.capacity.cap
        → (s : BroadcastSlot A) × (get_elem? r.buf (p % r.capacity.cap) ≡ some s)
          × (s.sequence.at ≡ State.vacant_word)

  pub slot_classify-value :
      (s : BroadcastSlot A) (p : ℕ) (v : A)
      → p < 2 ^ 63 - 1
      → HoldsAt (some v) p s
      → slot_classify s p ≡ ready (some v)
  unfolding slot_classify State.classify classify_as
  slot_classify-value s p v small (word, held) =
      rw (word, decode-published p small, (==_iff p p).1 refl, held) refl

  pub slot_classify-given_up :
      (s : BroadcastSlot A) (p : ℕ)
      → p < 2 ^ 63 - 1
      → HoldsAt none p s
      → slot_classify s p ≡ tombstoned
  unfolding slot_classify State.classify classify_as
  slot_classify-given_up s p small (word, u) =
      rw (word, decode-abandoned p small, (==_iff p p).1 refl) refl

  slot_classify-other :
      (x : Option A) (s : BroadcastSlot A) (p q : ℕ)
      → p < 2 ^ 63 - 1
      → p ≢ q
      → HoldsAt x p s
      → slot_classify s q ≡ not_ready
  unfolding slot_classify State.classify classify_as
  slot_classify-other (some v) s p q small ne (word, held) =
      let other : (p == q) ≡ false = ground arith in rw (word, decode-published p small, other) refl
  slot_classify-other none s p q small ne (word, u) =
      let other : (p == q) ≡ false = ground arith in rw (word, decode-abandoned p small, other) refl

  pub classify_at-at :
      (r : RingBuffer A) (p : ℕ) {s : BroadcastSlot A}
      → IsValid r.capacity
      → get_elem? r.buf (p % r.capacity.cap) ≡ some s
      → classify_at p r ≡ some (slot_classify s p)
  unfolding classify_at slot
  classify_at-at r p v e = rw (ap (get_elem? r.buf) (index_of-eq-mod v p) ∙ e) refl

  -- The slot of the tail is not ready: it is a lap old, or vacant.
  pub classify_at-tail :
      {log : ℕ → Option A} {r : RingBuffer A} → Logged log r → classify_at r.tail r ≡ some not_ready
  unfolding slot_classify State.classify classify_as
  classify_at-tail {log} {r} k = elim (dec_lt r.tail r.capacity.cap) [
    | yes first ↦
        let (s, e, word) = k.unreached r.tail (omega arith) first in
        classify_at-at r r.tail k.valid e ∙ rw (word, decode-vacant) refl
    | no later ↦
        let m = r.capacity.cap in
        let p = r.tail - m in
        let back : p + m ≡ r.tail = omega arith in
        let old = k.slots p (omega (arith, cap_pos k.valid)) (omega arith) in
        let share : r.tail % m ≡ p % m = ap (λ t. t % m) (sym back) ∙ add-mod_right p m in
        let ne : p ≢ r.tail = omega (arith, cap_pos k.valid) in
        let small : p < 2 ^ 63 - 1 = omega (arith, k.small) in
        classify_at-at r r.tail k.valid (ap (get_elem? r.buf) share ∙ old.found)
        ∙ ap some (slot_classify-other (log p) old.here p r.tail small ne old.holds)
  ]
