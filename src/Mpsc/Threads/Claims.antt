-- ===== src/Mpsc/Threads/Claims.antt =====
-- The steps of a producer handle that claims a position.
use quetzalcoatl.Common.{
  ℕ, suc, ◌+◌, ◌≤◌, ◌<◌, ◌≡◌, refl, sym, ap, subst, ◌∙◌, inl, inr, Bool, true, false, none, List,
  arith,
}
use quetzalcoatl.Common.Tests.{◌==◌, if◌then◌else◌, ==_iff, Bool-cases}
use quetzalcoatl.Common.Words.{add_usize}
use quetzalcoatl.Capacity
use quetzalcoatl.Capacity.Lap.{cap-le}
use quetzalcoatl.Sync.Cursors
use quetzalcoatl.Slot.Sequence.{SeqSlot}
use quetzalcoatl.Mpsc.Ring.{Producer}
use quetzalcoatl.Mpsc.Producer.{check_room, swap_tail}
use quetzalcoatl.Mpsc.Board.{
  Fate, unclaimed, pending, IsSettled, update, update_self, update-ne, Holds, At,
}
use quetzalcoatl.Mpsc.Threads.{
  resting, checking, swapping, writing, Threads, put, move, checked, swapped,
}
use quetzalcoatl.Mpsc.Threads.Inv.{Inv}
use quetzalcoatl.Mpsc.Threads.Frame.{PopAt-update, HandleAt-keep, put-HandleAt}
use quetzalcoatl.Mpsc.Threads.Writes.{move-Inv}

module _ {ℓ} {A : Type ℓ} where
  pub check-HandleAt :
      (i : ℕ) (t : Threads A) (tail : ℕ) (v : A) {n : ℕ}
      → Inv n t
      → (t.handles i).producer.cached_head ≤ t.ring.cursors.head
      → (t.handles i).producer.cached_head ≤ tail
      → tail ≤ t.ring.cursors.tail
      → let (room, p) = check_room tail (t.handles i).producer t.ring in
        (p.cached_head ≤ t.ring.cursors.head)
        × (room ≡ true → tail < t.ring.cursors.head + t.ring.capacity.cap)
  unfolding check_room Capacity.get
  check-HandleAt i t tail v k old low_ le = ground (arith, cap-le k.valid, k.small, k.ordered)

  pub checked-Inv :
      {n : ℕ} (i tail : ℕ) (v : A) (t : Threads A) (a : Bool × Producer)
      → Inv (suc n) t
      → a.1.cached_head ≤ t.ring.cursors.head
      → (a.0 ≡ true → tail < t.ring.cursors.head + t.ring.capacity.cap)
      → tail ≤ t.ring.cursors.tail
      → Inv n (checked i tail v t a)
  unfolding checked
  checked-Inv i tail v t (true, p) k old grant le =
      move-Inv i (record { producer = p; place = swapping tail v }) t k
        (record { old = old; at = (le, grant refl, tt) })
  checked-Inv i tail v t (false, p) k old grant le =
      move-Inv i (record { producer = p; place = resting }) t k (record { old = old; at = tt })

  pub retry-Inv :
      {n : ℕ} (i : ℕ) (v : A) (t : Threads A)
      → Inv (suc n) t
      → Inv n (put i (record (t.handles i) { place = checking t.ring.cursors.tail v }) t)
  retry-Inv i v t k =
      move-Inv i (record (t.handles i) { place = checking t.ring.cursors.tail v }) t k
        (record {
          old = (k.handles i).old;
          at = (omega (arith, (k.handles i).old, k.ordered), omega arith, tt);
        })

  At-claimed :
      {buf : List (SeqSlot A)} {m p : ℕ} (x : Fate A) (i : ℕ)
      → At buf m x p
      → x ≡ unclaimed
      → At buf m (pending i none) p
  At-claimed {p} x i a e = record {
    here = a.here;
    found = a.found;
    holds = subst (λ x. Holds x p a.here) e a.holds;
  }

  claim-Inv :
      {n : ℕ} (i tail : ℕ) (v : A) (t : Threads A)
      → Inv (suc n) t
      → tail ≡ t.ring.cursors.tail
      → tail < t.ring.cursors.head + t.ring.capacity.cap
      → Inv n (
          put i
            (record (t.handles i) { place = writing tail v })
            (record t {
              ring = record (t.ring) {
                cursors = record (t.ring.cursors) { tail = add_usize tail 1 };
              };
              fate = update t.fate tail (pending i none);
            }))
  unfolding put
  claim-Inv i tail v t k same space = record {
    valid = k.valid;
    storage = k.storage;
    small = omega (arith, k.small);
    ordered = omega (arith, k.ordered, k.small);
    room = omega (arith, k.room, k.small);
    slots = λ p lo hi. elim (Bool-cases (p == tail)) [
      | inl here ↦
          let e = (==_iff p tail).0 here in
          subst (λ x. At t.ring.buf t.ring.capacity.cap x p)
            (sym (ap (update t.fate tail (pending i none)) e ∙ update_self t.fate tail _))
            (At-claimed (t.fate p) i (k.slots p lo hi) (k.ahead p (omega arith)))
      | inr other ↦
          subst (λ x. At t.ring.buf t.ring.capacity.cap x p)
            (sym (update-ne t.fate tail p _ (λ e. cc (other, (==_iff p tail).1 e))))
            (k.slots p lo hi)
    ];
    ahead = λ p le.
        update-ne t.fate tail p _ (omega (arith, k.small)) ∙ k.ahead p (omega (arith, k.small));
    behind = λ p lt.
        subst IsSettled (sym (update-ne t.fate tail p _ (omega (arith, k.ordered))))
          (k.behind p lt);
    popping =
        PopAt-update t.popping t.fate t.received _ tail _ k.popping (omega (arith, k.ordered)) shut;
    handles =
        put-HandleAt t.handles i _ t.fate _ _ _ _ _ _ k.handles
          (record {
            old = (k.handles i).old;
            at = (omega (arith, k.ordered), omega (arith, k.small), update_self t.fate tail _);
          })
          (λ j ne old.
            HandleAt-keep j _ t.fate _ _ _ _ _ _ (omega arith) (omega (arith, k.small))
              (λ q o' le e.
                (le, update-ne t.fate tail q _ (λ at. cc (e, ap t.fate at, unclaimed_at))))
              old);
  }
    where
      unclaimed_at : t.fate tail ≡ unclaimed
      unclaimed_at = k.ahead tail (omega arith)

      shut : ¬ IsSettled (t.fate tail)
      shut s = subst IsSettled unclaimed_at s

  pub swap-Inv :
      {n : ℕ} (i tail : ℕ) (v : A) (t : Threads A)
      → Inv (suc n) t
      → tail < t.ring.cursors.head + t.ring.capacity.cap
      → Inv n (swapped i tail v t (swap_tail tail t.ring))
  unfolding swapped swap_tail move Cursors.publish_tail
  swap-Inv {n} i tail v t k space = elim (Bool-cases (t.ring.cursors.tail == tail)) [
    | inl won ↦
        subst
          (λ b. Inv n (
            swapped i tail v t (
              if b
              then (
                true,
                record (t.ring) {
                  cursors = Cursors.publish_tail t.ring.cursors (add_usize tail 1);
                },
              )
              else (false, t.ring))))
          (sym won) (claim-Inv i tail v t k (sym ((==_iff _ tail).0 won)) space)
    | inr lost ↦
        subst
          (λ b. Inv n (
            swapped i tail v t (
              if b
              then (
                true,
                record (t.ring) {
                  cursors = Cursors.publish_tail t.ring.cursors (add_usize tail 1);
                },
              )
              else (false, t.ring))))
          (sym lost) (retry-Inv i v t k)
  ]

  pub spurious-Inv :
      {n : ℕ} (i tail : ℕ) (v : A) (t : Threads A)
      → Inv (suc n) t
      → Inv n (swapped i tail v t (false, t.ring))
  unfolding swapped move
  spurious-Inv i tail v t k = retry-Inv i v t k
