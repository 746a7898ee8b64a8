-- ===== src/Spsc/Reserve.antt =====
-- Reservations of the spsc producer: reserve, write, then commit, drop or forget.
use quetzalcoatl.Common.{
  ℕ, ◌+◌, ◌<◌, ◌≡◌, refl, ap, ◌∙◌, true, Option, none, some, List, [], ◌∷◌, ◌++◌,
}
use quetzalcoatl.Common.Lists.{length, get_elem?, set, get_elem?-set_self}
use quetzalcoatl.Capacity
use quetzalcoatl.Capacity.Lap.{index_of-word}
use quetzalcoatl.Spsc.Ring.{RingBuffer, Spsc, write_slot, take_slot}
use quetzalcoatl.Spsc.Producer.{
  SlotWriter, WrittenSlot, try_claim, publish, reserve, write, commit, drop_if_uncommitted,
}
use quetzalcoatl.Spsc.Repr.{Repr, take_slot-word}
use quetzalcoatl.Spsc.Push.{
  Claimed, Written, next_index, next_index-lt, with_buf, try_claim-Claimed, try_claim-full,
  write-Claimed, write-Written, write_slot-Claimed, publish-Repr,
}

module _ {ℓ} {A : Type ℓ} where
  -- A reservation of a ring that holds `q`.
  abbrev pub Reserved : SlotWriter → Spsc A → List A → Type ℓ
  Reserved w s q = Claimed w.pos s q

  reserve-some :
      (s : Spsc A) {pos : ℕ}
      → (try_claim s).0 ≡ some pos
      → reserve s ≡ (some (record { pos = pos }), (try_claim s).1)
  unfolding reserve
  reserve-some s e = rw (e, reserve)

  reserve-none : (s : Spsc A) → (try_claim s).0 ≡ none → reserve s ≡ (none, (try_claim s).1)
  unfolding reserve
  reserve-none s e = rw (e, reserve)

  -- `reserve` grants a slot when the ring is not full and none when it is full; either way no item is
  -- added or lost.
  pub reserve_lem :
      {s : Spsc A} {q : List A}
      → Repr s q
      → (length q < s.ring.capacity.cap
          → (w : SlotWriter) × (s' : Spsc A) × (reserve s ≡ (some w, s')) × Reserved w s' q)
        × (length q ≡ s.ring.capacity.cap → (s' : Spsc A) × (reserve s ≡ (none, s')) × Repr s' q)
  reserve_lem {s} {q} r = (
    λ room. let (claim, k) = try_claim-Claimed s q r room in (_, _, reserve-some s claim, k),
    λ full. let (claim, r') = try_claim-full s q r full in (_, reserve-none s claim, r'),
  )

  write-some :
      (w : SlotWriter) (v : A) (s : Spsc A) {ring : RingBuffer A}
      → write_slot w.pos v s.ring ≡ some ring
      → write w v s ≡ some (record { pos = w.pos; armed = true }, record s { ring = ring })
  unfolding write
  write-some w v s e = rw (e, write)

  -- Writing the slot of a reservation is defined, and the value is not in the queue yet.
  write_lem :
      (v : A) (w : SlotWriter) {s : Spsc A} {q : List A}
      → Reserved w s q
      → (s' : Spsc A) × (write w v s ≡ some (record { pos = w.pos; armed = true }, s'))
        × Written w.pos v s' q
  write_lem v w {s} k = (_, write-some w v s (write_slot-Claimed v k), write-Written v k)

  commit_lem : (w : WrittenSlot) (s : Spsc A) → commit w s ≡ some (publish w.pos s)
  unfolding commit drop_if_uncommitted
  commit_lem w s = refl

  take_slot-Written :
      (pos : ℕ) (v : A) {s : Spsc A} {q : List A} (w : Written pos v s q)
      → take_slot pos s.ring
        ≡ some (v, record (s.ring) { buf = set s.ring.buf (next_index w.claimed.repr) none })
  take_slot-Written pos v {s} {q} w =
      take_slot-word s.ring pos (first + length q) v items.valid w.claimed.at w.holds
    where
      open (w.claimed.repr) use {first, items}

  drop-some :
      (w : WrittenSlot) (s : Spsc A) {v : A} {ring : RingBuffer A}
      → w.armed ≡ true
      → take_slot w.pos s.ring ≡ some (v, ring)
      → drop_if_uncommitted w s ≡ some (some v, record s { ring = ring })
  unfolding drop_if_uncommitted
  drop-some w s a e = rw (a, e)

  -- What the slot of a position holds.
  abbrev pub slot_of : ℕ → Spsc A → Option (Option A)
  slot_of pos s = get_elem? s.ring.buf (Capacity.index_of s.ring.capacity pos)

  index_of-Claimed :
      {pos : ℕ} {s : Spsc A} {q : List A} (k : Claimed pos s q)
      → Capacity.index_of s.ring.capacity pos ≡ next_index k.repr
  index_of-Claimed {s} {q} k =
      ap (Capacity.index_of s.ring.capacity) k.at
      ∙ index_of-word k.repr.items.valid (k.repr.first + length q)

  slot_of-Claimed :
      (o : Option A) {pos : ℕ} {s : Spsc A} {q : List A} (k : Claimed pos s q)
      → slot_of pos (with_buf s (set s.ring.buf (next_index k.repr) o)) ≡ some o
  slot_of-Claimed o {pos} {s} {q} k =
      ap (get_elem? (set s.ring.buf (next_index k.repr) o)) (index_of-Claimed k)
      ∙ get_elem?-set_self s.ring.buf _ o (next_index-lt k.repr)

  slot_of-Written :
      (pos : ℕ) (v : A) {s : Spsc A} {q : List A}
      → Written pos v s q
      → slot_of pos s ≡ some (some v)
  slot_of-Written pos v {s} {q} w = ap (get_elem? s.ring.buf) (index_of-Claimed w.claimed) ∙ w.holds

  -- The write of a reservation puts the value into its slot and leaves the queue as it was. Committed,
  -- it adds the value to the queue, as a push would. Dropped instead, it drops that value: the slot
  -- holds nothing any more, and the queue is as it was. Forgotten, it leaves the queue, and the value
  -- in the slot.
  pub reservation_lem :
      (v : A) (w : SlotWriter) {s : Spsc A} {q : List A}
      → Reserved w s q
      → (k : WrittenSlot) × (s' : Spsc A) × (write w v s ≡ some (k, s'))
        × ((t : Spsc A) × (commit k s' ≡ some t) × Repr t (q ++ (v ∷ [])))
        × ((t : Spsc A) × (drop_if_uncommitted k s' ≡ some (some v, t))
            × (slot_of w.pos t ≡ some none)
            × Repr t q)
        × (slot_of w.pos s' ≡ some (some v))
        × Repr s' q
  reservation_lem v w {s} {q} r =
      let (s', e, held) = write_lem v w r in
      (
        record { pos = w.pos; armed = true },
        s',
        e,
        (_, commit_lem _ s', publish-Repr v held),
        (
          _,
          drop-some _ s' refl (take_slot-Written w.pos v held),
          slot_of-Claimed none held.claimed,
          (write-Claimed none held.claimed).repr,
        ),
        slot_of-Written w.pos v held,
        held.claimed.repr,
      )
