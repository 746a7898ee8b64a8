-- ===== src/Spmc/Access.antt =====
-- The accesses of an spmc ring to the slot of a position below 2^63, where its word and its number are the
-- same.
use quetzalcoatl.Common.{ℕ, ◌%◌, ◌≡◌, refl, ap, ◌∙◌, Option, none, some}
use quetzalcoatl.Common.Tests.{◌==◌}
use quetzalcoatl.Common.Lists.{get_elem?, set}
use quetzalcoatl.Capacity.{IsValid}
use quetzalcoatl.Capacity.Lap.{index_of-eq-mod}
use quetzalcoatl.Slot.Done
use quetzalcoatl.Slot.Done.{DoneWord, is_free_for}
use quetzalcoatl.Spmc.Ring.{
  RingBuffer, data_slot, done_slot, write_slot, take_slot, is_free, release_slot,
}

module _ {ℓ} {A : Type ℓ} (r : RingBuffer A) (p : ℕ) (v : IsValid r.capacity) where
  data_slot-at :
      {x : Option A} → get_elem? r.storage (p % r.capacity.cap) ≡ some x → data_slot p r ≡ some x
  unfolding data_slot
  data_slot-at e = ap (get_elem? r.storage) (index_of-eq-mod v p) ∙ e

  done_slot-at :
      {d : DoneWord} → get_elem? r.done (p % r.capacity.cap) ≡ some d → done_slot p r ≡ some d
  unfolding done_slot
  done_slot-at e = ap (get_elem? r.done) (index_of-eq-mod v p) ∙ e

  pub is_free-at :
      {d : DoneWord}
      → get_elem? r.done (p % r.capacity.cap) ≡ some d
      → is_free p r ≡ some (d.at == p)
  unfolding is_free is_free_for
  is_free-at e = rw (done_slot-at e) refl

  pub write_slot-at :
      {x : Option A} (a : A)
      → get_elem? r.storage (p % r.capacity.cap) ≡ some x
      → write_slot p a r ≡ some (record r { storage = set r.storage (p % r.capacity.cap) (some a) })
  unfolding write_slot
  write_slot-at a e =
      rw (data_slot-at e)
        (ap (λ i. some (record r { storage = set r.storage i (some a) })) (index_of-eq-mod v p))

  pub take_slot-at :
      {a : A}
      → get_elem? r.storage (p % r.capacity.cap) ≡ some (some a)
      → take_slot p r ≡ some (a, record r { storage = set r.storage (p % r.capacity.cap) none })
  unfolding take_slot
  take_slot-at {a} e =
      rw (data_slot-at e)
        (ap (λ i. some (a, record r { storage = set r.storage i none })) (index_of-eq-mod v p))

  pub release_slot-at :
      {d : DoneWord}
      → get_elem? r.done (p % r.capacity.cap) ≡ some d
      → release_slot p r
        ≡ some (record r { done = set r.done (p % r.capacity.cap) (Done.release p r.capacity d) })
  unfolding release_slot
  release_slot-at {d} e = rw (done_slot-at e) (
      ap (λ i. some (record r { done = set r.done i (Done.release p r.capacity d) }))
        (index_of-eq-mod v p))
