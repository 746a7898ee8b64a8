-- ===== src/Mpsc/Threads/PopSteps.antt =====
-- Every step of the consumer is defined and keeps the invariant.
use native.Mathlib.Nat.{mod-lt, add-mod_right}
use quetzalcoatl.Common.{
  ℕ, suc, ◌+◌, ◌*◌, ◌%◌, ◌≡◌, ◌≢◌, refl, sym, ap, subst, ◌∙◌, none, some, List, [], ◌∷◌, ◌++◌,
  arith,
}
use quetzalcoatl.Common.Lists.{set, get_elem?-set_ne, get_elem?-inside}
use quetzalcoatl.Common.Words.{add_usize}
use quetzalcoatl.Capacity
use quetzalcoatl.Capacity.Lap.{cap_pos, mod-ne}
use quetzalcoatl.Sync.Cursors
use quetzalcoatl.Slot.Sequence
use quetzalcoatl.Slot.Sequence.{SeqSlot}
use quetzalcoatl.Mpsc.Ring.{release_slot, publish_head, wake_producer, on_sequence}
use quetzalcoatl.Mpsc.Board.{Fate, sent, IsSettled, value, values, Slots, Slots-set, Holds, At}
use quetzalcoatl.Mpsc.Access.{update_slot-at, take_slot-at}
use quetzalcoatl.Mpsc.Threads.{Popping, testing, reading, releasing, advancing, Threads, pop_step}
use quetzalcoatl.Mpsc.Threads.Inv.{Inv}
use quetzalcoatl.Mpsc.Threads.Frame.{HandleAt-keep, settled-ne, IsSettled-suc, Inv-parks}
use quetzalcoatl.Mpsc.Threads.Looks.{pop_place, Slots-of, settled_below, test_step-Inv, slot-Inv}

module _ {ℓ} {A : Type ℓ} where
  -- What the slot of a position with a value holds.
  sent-At :
      {buf : List (SeqSlot A)} {m p : ℕ} {x : Fate A} {v : A}
      → At buf m x p
      → x ≡ sent v
      → At buf m (sent v) p
  sent-At {buf} {m} {p} a e = subst (λ x. At buf m x p) e a

  At-others :
      {buf : List (SeqSlot A)} {m i q : ℕ} {x : Fate A} (s : SeqSlot A)
      → i ≢ q % m
      → At buf m x q
      → At (set buf i s) m x q
  At-others {buf} s ne a = record {
    here = a.here;
    found = get_elem?-set_ne buf s ne ∙ a.found;
    holds = a.holds;
  }

  read_step-Inv :
      {n : ℕ} (t : Threads A)
      → t.popping ≡ reading t.ring.cursors.head
      → Inv (suc n) t
      → (t' : Threads A) × (pop_step (reading t.ring.cursors.head) t ≡ some t') × Inv n t'
  unfolding pop_step
  read_step-Inv t e k =
      let (same, (v, f), out) = pop_place k e in
      let head = t.ring.cursors.head in
      let m = t.ring.capacity.cap in
      let a = sent-At (Slots-of k e head (omega arith) (omega (arith, cap_pos k.valid))) f in
      let s = record (a.here) { storage = none } in
      (
        record t {
          ring = record (t.ring) { buf = set t.ring.buf (head % m) s };
          popping = releasing head;
          received = t.received ++ (v ∷ []);
        },
        rw (take_slot-at t.ring head k.valid a.found a.holds.1) refl,
        slot-Inv t (releasing head) s _ k
            (λ q from to.
              At-others s (mod-ne m head q (cap_pos k.valid) (omega arith) to)
                (Slots-of k e q (omega arith) to))
            (
              refl,
              subst IsSettled (sym f) tt,
              ap (λ l. l ++ (v ∷ [])) out ∙ ap (λ x. values t.fate head ++ value x) (sym f),
            ),
      )

  -- The slot that the consumer gives back serves the position one lap later.
  released-Slots :
      {n : ℕ} (t : Threads A) (s : SeqSlot A) (k : Inv (suc n) t) {x : ℕ}
      → t.popping ≡ releasing x
      → s.sequence.at ≡ (t.ring.cursors.head + t.ring.capacity.cap) * 2
      → let head = t.ring.cursors.head in
        let m = t.ring.capacity.cap in
        Slots (set t.ring.buf (head % m) s) m t.fate (suc head) (suc head + m)
  released-Slots t s k e free =
      let head = t.ring.cursors.head in
      let m = t.ring.capacity.cap in
      Slots-set t.ring.buf m t.fate t.fate (suc head) (head + m) (suc head) (suc head + m)
        (head % m) (head + m) s (Slots-of k e) (rw k.storage (mod-lt head (cap_pos k.valid)))
        (sym (add-mod_right head m))
        (subst (λ x. Holds x (head + m) s) (sym (k.ahead (head + m) k.room)) (free, tt))
        (λ q from to ne.
          (from, omega arith, refl, mod-ne m head q (cap_pos k.valid) (omega arith) (omega arith)))

  release_step-Inv :
      {n : ℕ} (x : ℕ) (t : Threads A)
      → t.popping ≡ releasing x
      → Inv (suc n) t
      → (t' : Threads A) × (pop_step (releasing x) t ≡ some t') × Inv n t'
  unfolding pop_step release_slot Sequence.release Capacity.get
  release_step-Inv x t e k =
      let (same, settled, out) = pop_place k e in
      let head = t.ring.cursors.head in
      let m = t.ring.capacity.cap in
      let (here, found) =
        get_elem?-inside t.ring.buf (head % m) (rw k.storage (mod-lt head (cap_pos k.valid))) in
      let s = on_sequence (Sequence.release head t.ring.capacity) here in
      (
        record t {
          ring = record (t.ring) { buf = set t.ring.buf (head % m) s };
          popping = advancing head;
        },
        rw
            (
              same,
              update_slot-at (on_sequence (Sequence.release head t.ring.capacity)) t.ring head
                  k.valid found,
            )
            refl,
        slot-Inv t (advancing head) s _ k
            (released-Slots t s k e (omega (arith, k.small, k.ordered))) (refl, settled, out),
      )

  -- The head moves past a settled position.
  advanced-Inv :
      {n : ℕ} (t : Threads A) (head' : ℕ)
      → Inv (suc n) t
      → t.popping ≡ advancing t.ring.cursors.head
      → head' ≡ suc t.ring.cursors.head
      → Inv n (record t {
        ring = record (t.ring) { cursors = record (t.ring.cursors) { head = head' } };
        popping = testing;
      })
  advanced-Inv t head' k e next =
      let head = t.ring.cursors.head in
      let (same, settled, out) = pop_place k e in
      let below = settled_below k head settled in
      record {
        valid = k.valid;
        storage = k.storage;
        small = omega (arith, k.small);
        ordered = omega (arith, k.ordered);
        room = omega (arith, k.room);
        slots = λ p from to. Slots-of k e p (omega arith) (omega arith);
        ahead = k.ahead;
        behind = λ p lt. IsSettled-suc t.fate head k.behind settled (omega arith);
        popping = out ∙ ap (values t.fate) (sym next);
        handles = λ j.
            HandleAt-keep j (t.handles j) t.fate t.fate head _ head' _ _ (omega arith) (omega arith)
              (λ pos o le mine. (
                omega (
                  arith,
                  settled-ne t.fate settled
                      (λ (s : IsSettled (t.fate pos)). subst IsSettled mine s),
                ),
                refl,
              ))
              (k.handles j);
      }

  advance_step-Inv :
      {n : ℕ} (x : ℕ) (t : Threads A)
      → t.popping ≡ advancing x
      → Inv (suc n) t
      → (t' : Threads A) × (pop_step (advancing x) t ≡ some t') × Inv n t'
  unfolding pop_step wake_producer publish_head Cursors.publish_head
  advance_step-Inv x t e k =
      let (same, settled, out) = pop_place k e in
      (
        _,
        refl,
        Inv-parks _ _ _ _ (
            advanced-Inv t (add_usize x 1) k (e ∙ ap advancing same)
              (omega (arith, k.small, k.ordered))),
      )

  pub pop_step-Inv :
      {n : ℕ} (p : Popping) (t : Threads A)
      → t.popping ≡ p
      → Inv (suc n) t
      → (t' : Threads A) × (pop_step p t ≡ some t') × Inv n t'
  pop_step-Inv testing t e k = test_step-Inv t e k
  pop_step-Inv {n} (reading x) t e k =
      let same = (pop_place k e).0 in
      subst (λ x. (t' : Threads A) × (pop_step (reading x) t ≡ some t') × Inv n t') (sym same)
        (read_step-Inv t (e ∙ ap reading same) k)
  pop_step-Inv (releasing x) t e k = release_step-Inv x t e k
  pop_step-Inv (advancing x) t e k = advance_step-Inv x t e k
