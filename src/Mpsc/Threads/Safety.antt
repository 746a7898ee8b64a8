-- ===== src/Mpsc/Threads/Safety.antt =====
-- What holds after any interleaving of the producer handles and the consumer of an mpsc ring.
use quetzalcoatl.Common.{
  ℕ, suc, ◌+◌, ◌-◌, ◌^◌, ◌≤◌, ◌<◌, ◌≡◌, ◌≢◌, refl, sym, ap, subst, ◌∙◌, Option, none, some, List,
  [], ◌∷◌, arith,
}
use quetzalcoatl.Common.Lists.{length}
use quetzalcoatl.Capacity.{Capacity, IsValid, index_of}
use quetzalcoatl.Capacity.Lap.{cap_pos, index_of-eq-mod}
use quetzalcoatl.Mpsc.Ring.{new}
use quetzalcoatl.Mpsc.Board.{Fate, sent, pending, IsSettled, values}
use quetzalcoatl.Mpsc.Threads.{
  Pushing, resting, checking, swapping, writing, publishing, abandoning, Popping, testing, reading,
  releasing, advancing, Threads, Turn, produce, consume, turn, interleave, start,
}
use quetzalcoatl.Mpsc.Threads.Inv.{low, PopAt, Inv, start-Inv}
use quetzalcoatl.Mpsc.Threads.Frame.{mod-apart, IsSettled-suc}
use quetzalcoatl.Mpsc.Threads.Writes.{push_place}
use quetzalcoatl.Mpsc.Threads.PushSteps.{push_step-Inv}
use quetzalcoatl.Mpsc.Threads.Looks.{pop_place}
use quetzalcoatl.Mpsc.Threads.PopSteps.{pop_step-Inv}

-- The threads that reach the slots.
pub data Party : Type 0 where
  handle : ℕ → Party
  consumer : Party

abbrev pub read_of : Popping → Option ℕ
read_of testing = none
read_of (reading head) = some head
read_of (releasing head) = none
read_of (advancing head) = none

module _ {ℓ} {A : Type ℓ} where
  turn-Inv :
      {n : ℕ} (m : Turn A) (t : Threads A)
      → Inv (suc n) t
      → (t' : Threads A) × (turn m t ≡ some t') × Inv n t'
  unfolding turn
  turn-Inv (produce i v detour) t k = push_step-Inv i (t.handles i).place v detour t refl k
  turn-Inv consume t k = pop_step-Inv t.popping t refl k

  abbrev steps : List (Turn A) → ℕ → ℕ
  steps [] n = n
  steps (m ∷ ms) n = suc (steps ms n)

  steps-length : (ms : List (Turn A)) → steps ms 0 ≡ length ms
  steps-length [] = refl
  steps-length (m ∷ ms) = ap suc (steps-length ms)

  interleave-Inv :
      {n : ℕ} (ms : List (Turn A)) (t : Threads A)
      → Inv (steps ms n) t
      → (t' : Threads A) × (interleave ms t ≡ some t') × Inv n t'
  unfolding interleave
  interleave-Inv [] t k = (t, refl, k)
  interleave-Inv (m ∷ ms) t k =
      let (t₁, e₁, k₁) = turn-Inv m t k in
      let (t₂, e₂, k₂) = interleave-Inv ms t₁ k₁ in (t₂, rw e₁ e₂, k₂)

  run-Inv :
      (ms : List (Turn A)) (c : Capacity)
      → IsValid c
      → length ms + c.cap < 2 ^ 63 - 1
      → (t : Threads A) × (interleave ms (start (new c)) ≡ some t) × Inv 0 t
  run-Inv ms c v small =
      interleave-Inv ms (start (new c))
        (start-Inv c (steps ms 0) v (omega (arith, steps-length ms)))

  -- The first position whose value the consumer has not read.
  abbrev pub taken : Threads A → ℕ
  taken t = low t.popping t.ring.cursors.head

  taken-values :
      (p : Popping) (t : Threads A)
      → PopAt p t.fate t.received t.ring.cursors.head
      → t.received ≡ values t.fate (low p t.ring.cursors.head)
  taken-values testing t k = k
  taken-values (reading x) t (e, s, out) = out
  taken-values (releasing x) t (e, s, out) = out
  taken-values (advancing x) t (e, s, out) = out

  taken-IsSettled :
      (p : Popping) (t : Threads A) (q : ℕ)
      → PopAt p t.fate t.received t.ring.cursors.head
      → ((q : ℕ) → q < t.ring.cursors.head → IsSettled (t.fate q))
      → q < low p t.ring.cursors.head
      → IsSettled (t.fate q)
  taken-IsSettled testing t q k behind lt = behind q lt
  taken-IsSettled (reading x) t q k behind lt = behind q lt
  taken-IsSettled (releasing x) t q k behind lt = IsSettled-suc t.fate _ behind k.1 lt
  taken-IsSettled (advancing x) t q k behind lt = IsSettled-suc t.fate _ behind k.1 lt

  -- From an empty ring, whatever the order of the steps of any number of producer handles and of the
  -- consumer, no step is undefined behaviour; the values that the consumer has read are the values
  -- published at the first positions, in the order in which the positions were claimed, given up ones
  -- left out; each of these positions was published or given up; and no more positions are claimed
  -- than the ring has slots beyond the head. The number of steps and the capacity are together
  -- below `2 ^ 63 - 1`.
  pub interleave_claim_order :
      (ms : List (Turn A)) (c : Capacity)
      → IsValid c
      → length ms + c.cap < 2 ^ 63 - 1
      → (t : Threads A) × (interleave ms (start (new c)) ≡ some t)
        × (t.received ≡ values t.fate (taken t))
        × ((p : ℕ) → p < taken t → IsSettled (t.fate p))
        × (t.ring.cursors.head ≤ t.ring.cursors.tail)
        × (t.ring.cursors.tail ≤ t.ring.cursors.head + t.ring.capacity.cap)
  interleave_claim_order ms c v small =
      let (t, e, k) = run-Inv ms c v small in
      (
        t,
        e,
        taken-values t.popping t k.popping,
        λ p lt. taken-IsSettled t.popping t p k.popping k.behind lt,
        k.ordered,
        k.room,
      )

  -- The position whose slot a producer may write or drop the value of at its next step.
  abbrev pub touched : Pushing A → Option ℕ
  touched resting = none
  touched (checking tail v) = none
  touched (swapping tail v) = none
  touched (writing pos v) = some pos
  touched (publishing pos v) = some pos
  touched (abandoning pos) = none

  -- The position whose value a thread may touch at its next step.
  abbrev pub access : Party → Threads A → Option ℕ
  access (handle i) t = touched (t.handles i).place
  access consumer t = read_of t.popping

  abbrev OwnedBy : Party → Fate A → Type ℓ
  OwnedBy (handle i) x = (o : Option A) × (x ≡ pending i o)
  OwnedBy consumer x = (v : A) × (x ≡ sent v)

  OwnedBy-unique : (a b : Party) {x y : Fate A} → a ≢ b → OwnedBy a x → OwnedBy b y → x ≢ y
  OwnedBy-unique (handle i) (handle j) ne (o, e) (o', e') same = ne (cc (e, e', same))
  OwnedBy-unique (handle i) consumer ne (o, e) (v, e') same = cc (e, e', same)
  OwnedBy-unique consumer (handle j) ne (v, e) (o, e') same = cc (e, e', same)
  OwnedBy-unique consumer consumer ne (v, e) (w, e') same = ne refl

  touched-Owned :
      (i : ℕ) (p : Pushing A) {n q : ℕ} (t : Threads A)
      → Inv n t
      → (t.handles i).place ≡ p
      → touched p ≡ some q
      → (t.ring.cursors.head ≤ q)
        × (q < t.ring.cursors.head + t.ring.capacity.cap)
        × OwnedBy (handle i) (t.fate q)
  touched-Owned i resting t k e at = cc at
  touched-Owned i (checking tail v) t k e at = cc at
  touched-Owned i (swapping tail v) t k e at = cc at
  touched-Owned i (writing pos v) {q} t k e at =
      let (from, below, mine) = push_place k i e in
      let same : pos ≡ q = cc at in
      (omega arith, omega (arith, k.room), (none, ap t.fate (sym same) ∙ mine))
  touched-Owned i (publishing pos v) {q} t k e at =
      let (from, below, mine) = push_place k i e in
      let same : pos ≡ q = cc at in
      (omega arith, omega (arith, k.room), (some v, ap t.fate (sym same) ∙ mine))
  touched-Owned i (abandoning pos) t k e at = cc at

  read_of-Owned :
      (p : Popping) {n q : ℕ} (t : Threads A)
      → Inv n t
      → t.popping ≡ p
      → read_of p ≡ some q
      → (t.ring.cursors.head ≤ q)
        × (q < t.ring.cursors.head + t.ring.capacity.cap)
        × OwnedBy consumer (t.fate q)
  read_of-Owned testing t k e at = cc at
  read_of-Owned (reading x) {q} t k e at =
      let (here, (v, f), out) = pop_place k e in
      let same : x ≡ q = cc at in
      (omega arith, omega (arith, cap_pos k.valid), (v, ap t.fate (sym same ∙ here) ∙ f))
  read_of-Owned (releasing x) t k e at = cc at
  read_of-Owned (advancing x) t k e at = cc at

  access-Owned :
      (a : Party) {n q : ℕ} (t : Threads A)
      → Inv n t
      → access a t ≡ some q
      → (t.ring.cursors.head ≤ q)
        × (q < t.ring.cursors.head + t.ring.capacity.cap)
        × OwnedBy a (t.fate q)
  access-Owned (handle i) t k at = touched-Owned i (t.handles i).place t k refl at
  access-Owned consumer t k at = read_of-Owned t.popping t k refl at

  -- From an empty ring, no interleaving leads to a state in which two different threads, producer
  -- handles or the consumer, are about to touch the value of one slot. The number of steps and the
  -- capacity are together below `2 ^ 63 - 1`.
  pub interleave_exclusive :
      (ms : List (Turn A)) (c : Capacity) (t : Threads A) (a b : Party) {p q : ℕ}
      → IsValid c
      → length ms + c.cap < 2 ^ 63 - 1
      → interleave ms (start (new c)) ≡ some t
      → a ≢ b
      → access a t ≡ some p
      → access b t ≡ some q
      → index_of t.ring.capacity p ≢ index_of t.ring.capacity q
  interleave_exclusive ms c t a b {p} {q} v small e ne at_p at_q clash =
      let (t', e', k') = run-Inv ms c v small in
      let k = subst (Inv 0) (cc (e, e')) k' in
      let (from_p, to_p, own_p) = access-Owned a t k at_p in
      let (from_q, to_q, own_q) = access-Owned b t k at_q in
      mod-apart t.ring.capacity.cap t.ring.cursors.head p q (cap_pos k.valid) from_p to_p from_q
        to_q (λ same. OwnedBy-unique a b ne own_p own_q (ap t.fate same))
        (sym (index_of-eq-mod k.valid p) ∙ clash ∙ index_of-eq-mod k.valid q)
