-- ===== src/Mpsc/Threads/Inv.antt =====
-- What holds of an mpsc ring, its handles and its consumer between any two steps, when `n` steps are to
-- come and no position reaches half of `usize`.
use native.Mathlib.Nat.{mod-eq_of_lt}
use quetzalcoatl.Common.{
  ℕ, zero, suc, ◌+◌, ◌-◌, ◌^◌, ◌≤◌, ◌<◌, ◌≡◌, refl, ap, ◌∙◌, none, some, List, arith,
}
use quetzalcoatl.Common.Lists.{length, get_elem?}
use quetzalcoatl.Capacity
use quetzalcoatl.Capacity.{Capacity, IsValid}
use quetzalcoatl.Slot.Sequence.{slot_free_at, free_at}
use quetzalcoatl.Mpsc.Ring.{new, slots_from}
use quetzalcoatl.Mpsc.Board.{Fate, unclaimed, pending, sent, IsSettled, values, Slots}
use quetzalcoatl.Mpsc.Threads.{
  Pushing, resting, checking, swapping, writing, publishing, abandoning, Popping, testing, reading,
  releasing, advancing, Handle, Threads, start,
}

-- The first position whose slot the consumer has not taken, and the end of the positions whose slots are
-- given to the producers, when the head is published at `head`.
abbrev pub low : Popping → ℕ → ℕ
low testing head = head
low (reading x) head = head
low (releasing x) head = suc head
low (advancing x) head = suc head

abbrev pub high : Popping → ℕ → ℕ → ℕ
high testing head m = head + m
high (reading x) head m = head + m
high (releasing x) head m = head + m
high (advancing x) head m = suc head + m

slots_from-at {ℓ} :
    (A : Type ℓ) (pos n p : ℕ)
    → p < n
    → get_elem? (slots_from {A = A} pos n) p ≡ some (slot_free_at (pos + p))
unfolding slots_from
slots_from-at A pos zero p h = elim h [ ]
slots_from-at A pos (suc n) zero h = ap (λ (k : ℕ). some (slot_free_at k)) (omega arith)
slots_from-at A pos (suc n) (suc p) h =
    slots_from-at A (suc pos) n p (omega arith)
    ∙ ap (λ (k : ℕ). some (slot_free_at k)) (omega arith)

length-slots_from {ℓ} : (A : Type ℓ) (pos n : ℕ) → length (slots_from {A = A} pos n) ≡ n
unfolding slots_from
length-slots_from A pos zero = refl
length-slots_from A pos (suc n) = ap suc (length-slots_from A (suc pos) n)

module _ {ℓ} {A : Type ℓ} where
  abbrev pub PopAt : Popping → (ℕ → Fate A) → List A → (head : ℕ) → Type ℓ
  PopAt testing f out head = out ≡ values f head
  PopAt (reading x) f out head = (x ≡ head) × ((v : A) × (f head ≡ sent v)) × (out ≡ values f head)
  PopAt (releasing x) f out head = (x ≡ head) × IsSettled (f head) × (out ≡ values f (suc head))
  PopAt (advancing x) f out head = (x ≡ head) × IsSettled (f head) × (out ≡ values f (suc head))

  -- What the place of handle `i` says, when the positions below `tail` are claimed and those below
  -- `limit` have room.
  abbrev pub PushAt : ℕ → Handle A → (ℕ → Fate A) → (head tail limit : ℕ) → Pushing A → Type ℓ
  PushAt i h f head tail limit resting = Unit
  PushAt i h f head tail limit (checking t v) = (h.producer.cached_head ≤ t) × (t ≤ tail) × Unit {ℓ}
  PushAt i h f head tail limit (swapping t v) = (t ≤ tail) × (t < limit) × Unit {ℓ}
  PushAt i h f head tail limit (writing pos v) =
      (head ≤ pos) × (pos < tail) × (f pos ≡ pending i none)
  PushAt i h f head tail limit (publishing pos v) =
      (head ≤ pos) × (pos < tail) × (f pos ≡ pending i (some v))
  PushAt i h f head tail limit (abandoning pos) =
      (head ≤ pos) × (pos < tail) × (f pos ≡ pending i none)

  pub record HandleAt (i : ℕ) (h : Handle A) (f : ℕ → Fate A) (head tail m : ℕ) : Type ℓ where
    pub old : h.producer.cached_head ≤ head
    pub at : PushAt i h f head tail (head + m) h.place

  pub record Inv (n : ℕ) (t : Threads A) : Type ℓ where
    pub valid : IsValid t.ring.capacity
    pub storage : length t.ring.buf ≡ t.ring.capacity.cap
    pub small : t.ring.cursors.tail + n + t.ring.capacity.cap < 2 ^ 63 - 1
    pub ordered : t.ring.cursors.head ≤ t.ring.cursors.tail
    pub room : t.ring.cursors.tail ≤ t.ring.cursors.head + t.ring.capacity.cap
    pub slots :
        Slots t.ring.buf t.ring.capacity.cap t.fate
          (low t.popping t.ring.cursors.head)
          (high t.popping t.ring.cursors.head t.ring.capacity.cap)
    pub ahead : (p : ℕ) → t.ring.cursors.tail ≤ p → t.fate p ≡ unclaimed
    pub behind : (p : ℕ) → p < t.ring.cursors.head → IsSettled (t.fate p)
    pub popping : PopAt t.popping t.fate t.received t.ring.cursors.head
    pub handles :
        (i : ℕ)
        → HandleAt i
            (t.handles i)
            t.fate
            t.ring.cursors.head
            t.ring.cursors.tail
            t.ring.capacity.cap

  pub start-Inv :
      (c : Capacity) (n : ℕ) → IsValid c → n + c.cap < 2 ^ 63 - 1 → Inv n (start (new {A = A} c))
  unfolding start new Capacity.get slot_free_at free_at
  start-Inv c n v small = record {
    valid = v;
    storage = length-slots_from A 0 c.cap;
    small = omega arith;
    ordered = omega arith;
    room = omega arith;
    slots = λ p from to.
        let below : p < c.cap = omega arith in
        record {
          here = slot_free_at p;
          found =
              ap (get_elem? (slots_from {A = A} 0 c.cap)) (mod-eq_of_lt below)
              ∙ slots_from-at A 0 c.cap p below
              ∙ ap (λ (k : ℕ). some (slot_free_at k)) (omega arith);
          holds = (omega arith, tt);
        };
    ahead = λ p h. refl;
    behind = λ p h. elim h [ ];
    popping = refl;
    handles = λ i. record { old = omega arith; at = tt };
  }
