-- ===== src/Mpsc/Threads/PushSteps.antt =====
-- Every step of a producer handle is defined and keeps the invariant.
use quetzalcoatl.Common.{
  ℕ, suc, ◌+◌, ◌%◌, ◌≤◌, ◌<◌, ◌≡◌, refl, sym, subst, Bool, true, false, Option, none, some, arith,
}
use quetzalcoatl.Common.Lists.{set}
use quetzalcoatl.Slot.Sequence
use quetzalcoatl.Slot.Sequence.{SeqSlot, tombstone_word}
use quetzalcoatl.Mpsc.Ring.{Producer, write_slot, publish_slot, tombstone_slot, wake_consumer}
use quetzalcoatl.Mpsc.Producer.{publish, abandon}
use quetzalcoatl.Mpsc.Board.{Fate, pending, sent, dead, IsSettled, update, update_self, At}
use quetzalcoatl.Mpsc.Access.{update_slot-at, take_slot-at}
use quetzalcoatl.Mpsc.Threads.{
  Pushing, resting, checking, swapping, writing, publishing, abandoning, Handle, Threads, put, move,
  push_step,
}
use quetzalcoatl.Mpsc.Threads.Inv.{PushAt, HandleAt, Inv}
use quetzalcoatl.Mpsc.Threads.Frame.{Inv-parks}
use quetzalcoatl.Mpsc.Threads.Writes.{push_place, move-Inv, open_slot, write-Inv}
use quetzalcoatl.Mpsc.Threads.Claims.{
  check-HandleAt, checked-Inv, retry-Inv, swap-Inv, spurious-Inv,
}

module _ {ℓ} {A : Type ℓ} where
  -- What the slot of a claimed position holds.
  mine-At :
      {n : ℕ} {t : Threads A} (k : Inv n t) {pos i : ℕ} {o : Option A}
      → t.ring.cursors.head ≤ pos
      → pos < t.ring.cursors.tail
      → t.fate pos ≡ pending i o
      → At t.ring.buf t.ring.capacity.cap (pending i o) pos
  mine-At {t} k {pos} from below e =
      subst (λ x. At t.ring.buf t.ring.capacity.cap x pos) e
        (open_slot k from below (λ s. subst IsSettled e s))

  HandleAt-self :
      (i : ℕ) (h : Handle A) (pos : ℕ) (x : Fate A) {n : ℕ} {t : Threads A}
      → Inv n t
      → h.producer ≡ (t.handles i).producer
      → PushAt i h
          (update t.fate pos x)
          t.ring.cursors.head
          t.ring.cursors.tail
          (t.ring.cursors.head + t.ring.capacity.cap)
          h.place
      → HandleAt i h
          (update t.fate pos x)
          t.ring.cursors.head
          t.ring.cursors.tail
          t.ring.capacity.cap
  HandleAt-self i h pos x {t} k e at = record {
    old = subst (λ (p : Producer). p.cached_head ≤ t.ring.cursors.head) (sym e) (k.handles i).old;
    at = at;
  }

  write_step-Inv :
      {n : ℕ} (i pos : ℕ) (w v : A) (t : Threads A)
      → Inv (suc n) t
      → (t.handles i).place ≡ writing pos w
      → (t' : Threads A) × (push_step i (writing pos w) v false t ≡ some t') × Inv n t'
  unfolding push_step write_slot move
  write_step-Inv i pos w v t k e =
      let (from, below, mine) = push_place k i e in
      let a = mine-At k from below mine in
      (
        _,
        rw (update_slot-at (λ s. record s { storage = some w }) t.ring pos k.valid a.found) refl,
        write-Inv i (record (t.handles i) { place = publishing pos w }) pos none
            (record (a.here) { storage = some w }) (pending i (some w)) t k from below mine
            (a.holds.0, refl)
            (HandleAt-self i _ pos _ k refl (from, below, update_self t.fate pos _)),
      )

  take_step-Inv :
      {n : ℕ} (i pos : ℕ) (w v : A) (t : Threads A)
      → Inv (suc n) t
      → (t.handles i).place ≡ publishing pos w
      → (t' : Threads A) × (push_step i (publishing pos w) v true t ≡ some t') × Inv n t'
  unfolding push_step move
  take_step-Inv i pos w v t k e =
      let (from, below, mine) = push_place k i e in
      let a = mine-At k from below mine in
      (
        _,
        rw (take_slot-at t.ring pos k.valid a.found a.holds.1) refl,
        write-Inv i (record (t.handles i) { place = abandoning pos }) pos (some w)
            (record (a.here) { storage = none }) (pending i none) t k from below mine
            (a.holds.0, tt)
            (HandleAt-self i _ pos _ k refl (from, below, update_self t.fate pos _)),
      )

  publish_step-Inv :
      {n : ℕ} (i pos : ℕ) (w v : A) (t : Threads A)
      → Inv (suc n) t
      → (t.handles i).place ≡ publishing pos w
      → (t' : Threads A) × (push_step i (publishing pos w) v false t ≡ some t') × Inv n t'
  unfolding push_step publish publish_slot wake_consumer move put Sequence.publish
  publish_step-Inv i pos w v t k e =
      let (from, below, mine) = push_place k i e in
      let a = mine-At k from below mine in
      (
        put i (record (t.handles i) { place = resting })
            (record t {
              ring = wake_consumer (record (t.ring) {
                buf =
                    set t.ring.buf (pos % t.ring.capacity.cap)
                      (record (a.here) { sequence = Sequence.publish pos a.here.sequence });
              });
              fate = update t.fate pos (sent w);
            }),
        rw
            (update_slot-at (λ s. record s { sequence = Sequence.publish pos s.sequence }) t.ring
              pos k.valid a.found)
            refl,
        Inv-parks _ _ _ _ (
            write-Inv i (record (t.handles i) { place = resting }) pos (some w)
              (record (a.here) { sequence = Sequence.publish pos a.here.sequence }) (sent w) t k
              from below mine (omega (arith, k.small), a.holds.1)
              (HandleAt-self i _ pos _ k refl tt)),
      )

  abandon_step-Inv :
      {n : ℕ} (i pos : ℕ) (v : A) (detour : Bool) (t : Threads A)
      → Inv (suc n) t
      → (t.handles i).place ≡ abandoning pos
      → (t' : Threads A) × (push_step i (abandoning pos) v detour t ≡ some t') × Inv n t'
  unfolding push_step abandon tombstone_slot wake_consumer move put Sequence.tombstone
  abandon_step-Inv i pos v detour t k e =
      let (from, below, mine) = push_place k i e in
      let a = mine-At k from below mine in
      (
        put i (record (t.handles i) { place = resting })
            (record t {
              ring = wake_consumer (record (t.ring) {
                buf =
                    set t.ring.buf (pos % t.ring.capacity.cap)
                      (record (a.here) { sequence = Sequence.tombstone a.here.sequence });
              });
              fate = update t.fate pos dead;
            }),
        rw
            (update_slot-at (λ s. record s { sequence = Sequence.tombstone s.sequence }) t.ring pos
              k.valid a.found)
            refl,
        Inv-parks _ _ _ _ (
            write-Inv i (record (t.handles i) { place = resting }) pos none
              (record (a.here) { sequence = Sequence.tombstone a.here.sequence }) dead t k from
              below mine (refl, tt) (HandleAt-self i _ pos _ k refl tt)),
      )

  pub push_step-Inv :
      {n : ℕ} (i : ℕ) (p : Pushing A) (v : A) (detour : Bool) (t : Threads A)
      → (t.handles i).place ≡ p
      → Inv (suc n) t
      → (t' : Threads A) × (push_step i p v detour t ≡ some t') × Inv n t'
  unfolding push_step move
  push_step-Inv i resting v detour t e k = (_, refl, retry-Inv i v t k)
  push_step-Inv i (checking tail w) v detour t e k =
      let (low_, le, _) = push_place k i e in
      let (old, grant) = check-HandleAt i t tail w k (k.handles i).old low_ le in
      (_, refl, checked-Inv i tail w t _ k old grant le)
  push_step-Inv i (swapping tail w) v true t e k = (_, refl, spurious-Inv i tail w t k)
  push_step-Inv i (swapping tail w) v false t e k =
      let (le, space, _) = push_place k i e in (_, refl, swap-Inv i tail w t k space)
  push_step-Inv i (writing pos w) v true t e k =
      let (from, below, mine) = push_place k i e in
      (
        _,
        refl,
        move-Inv i (record (t.handles i) { place = abandoning pos }) t k
            (record { old = (k.handles i).old; at = (from, below, mine) }),
      )
  push_step-Inv i (writing pos w) v false t e k = write_step-Inv i pos w v t k e
  push_step-Inv i (publishing pos w) v true t e k = take_step-Inv i pos w v t k e
  push_step-Inv i (publishing pos w) v false t e k = publish_step-Inv i pos w v t k e
  push_step-Inv i (abandoning pos) v detour t e k = abandon_step-Inv i pos v detour t k e
