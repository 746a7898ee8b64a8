-- ===== src/Mpsc/Threads/Looks.antt =====
-- The consumer that tests the word of a slot, and what it knows of the slots.
use quetzalcoatl.Common.{
  ℕ, suc, ◌%◌, ◌<◌, ◌≡◌, refl, sym, ap, subst, ◌∙◌, some, List, ◌++◌, append-nil, arith,
}
use native.Mathlib.Decide.{dec_lt}
use quetzalcoatl.Common.Lists.{set, length-set}
use quetzalcoatl.Capacity.Lap.{cap_pos}
use quetzalcoatl.Slot.Sequence.{SeqSlot}
use quetzalcoatl.Mpsc.Board.{Fate, unclaimed, pending, sent, dead, IsSettled, value, values, Slots}
use quetzalcoatl.Mpsc.Access.{seen, classify_at-seen}
use quetzalcoatl.Mpsc.Threads.{Popping, testing, reading, releasing, Threads, tested, pop_step}
use quetzalcoatl.Mpsc.Threads.Inv.{low, high, PopAt, Inv}

module _ {ℓ} {A : Type ℓ} where
  pub pop_place :
      {n : ℕ} {t : Threads A} (k : Inv n t) {p : Popping}
      → t.popping ≡ p
      → PopAt p t.fate t.received t.ring.cursors.head
  pop_place {t} k e = subst (λ p. PopAt p t.fate t.received t.ring.cursors.head) e k.popping

  pub Slots-of :
      {n : ℕ} {t : Threads A} (k : Inv n t) {p : Popping}
      → t.popping ≡ p
      → Slots t.ring.buf t.ring.capacity.cap t.fate
          (low p t.ring.cursors.head)
          (high p t.ring.cursors.head t.ring.capacity.cap)
  Slots-of {t} k e =
      subst
        (λ p.
          Slots t.ring.buf t.ring.capacity.cap t.fate (low p t.ring.cursors.head)
            (high p t.ring.cursors.head t.ring.capacity.cap))
        e k.slots

  -- A position that is settled has been claimed.
  pub settled_below :
      {n : ℕ} {t : Threads A} (k : Inv n t) (p : ℕ) → IsSettled (t.fate p) → p < t.ring.cursors.tail
  settled_below {t} k p s = elim (dec_lt p t.ring.cursors.tail) [
    | yes below ↦ below
    | no above ↦ absurd (subst IsSettled (k.ahead p (omega arith)) s)
  ]

  -- The consumer moves without a write.
  pub look-Inv :
      {n : ℕ} (t : Threads A) (p : Popping)
      → Inv (suc n) t
      → Slots t.ring.buf t.ring.capacity.cap t.fate
          (low p t.ring.cursors.head)
          (high p t.ring.cursors.head t.ring.capacity.cap)
      → PopAt p t.fate t.received t.ring.cursors.head
      → Inv n (record t { popping = p })
  look-Inv t p k slots at = record {
    valid = k.valid;
    storage = k.storage;
    small = omega (arith, k.small);
    ordered = k.ordered;
    room = k.room;
    slots = slots;
    ahead = k.ahead;
    behind = k.behind;
    popping = at;
    handles = k.handles;
  }

  pub tested-Inv :
      {n : ℕ} (x : Fate A) (t : Threads A)
      → Inv (suc n) t
      → t.popping ≡ testing
      → t.fate t.ring.cursors.head ≡ x
      → Inv n (record t { popping = tested t.ring.cursors.head (seen x) })
  unfolding tested
  tested-Inv unclaimed t k e f = look-Inv t testing k (Slots-of k e) (pop_place k e)
  tested-Inv (pending i o) t k e f = look-Inv t testing k (Slots-of k e) (pop_place k e)
  tested-Inv (sent v) t k e f =
      look-Inv t (reading t.ring.cursors.head) k (Slots-of k e) (refl, (v, f), pop_place k e)
  tested-Inv dead t k e f =
      look-Inv t (releasing t.ring.cursors.head) k (λ p from to. Slots-of k e p (omega arith) to)
        (
          refl,
          subst IsSettled (sym f) tt,
          pop_place k e
              ∙ sym (append-nil _)
              ∙ ap (λ x. values t.fate t.ring.cursors.head ++ value x) (sym f),
        )

  pub test_step-Inv :
      {n : ℕ} (t : Threads A)
      → t.popping ≡ testing
      → Inv (suc n) t
      → (t' : Threads A) × (pop_step testing t ≡ some t') × Inv n t'
  unfolding pop_step
  test_step-Inv t e k =
      let a = Slots-of k e t.ring.cursors.head (omega arith) (omega (arith, cap_pos k.valid)) in
      (
        record t { popping = tested t.ring.cursors.head (seen (t.fate t.ring.cursors.head)) },
        rw
            (classify_at-seen t.ring t.ring.cursors.head k.valid (omega (arith, k.small, k.ordered))
              a)
            refl,
        tested-Inv (t.fate t.ring.cursors.head) t k e refl,
      )

  -- The consumer writes the slot at the head, which it holds.
  pub slot-Inv :
      {n : ℕ} (t : Threads A) (p : Popping) (s : SeqSlot A) (out : List A)
      → Inv (suc n) t
      → Slots
          (set t.ring.buf (t.ring.cursors.head % t.ring.capacity.cap) s)
          t.ring.capacity.cap
          t.fate
          (low p t.ring.cursors.head)
          (high p t.ring.cursors.head t.ring.capacity.cap)
      → PopAt p t.fate out t.ring.cursors.head
      → Inv n (record t {
        ring = record (t.ring) {
          buf = set t.ring.buf (t.ring.cursors.head % t.ring.capacity.cap) s;
        };
        popping = p;
        received = out;
      })
  slot-Inv t p s out k slots at = record {
    valid = k.valid;
    storage = length-set t.ring.buf _ s ∙ k.storage;
    small = omega (arith, k.small);
    ordered = k.ordered;
    room = k.room;
    slots = slots;
    ahead = k.ahead;
    behind = k.behind;
    popping = at;
    handles = k.handles;
  }
