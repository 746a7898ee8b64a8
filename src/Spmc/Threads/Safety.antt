-- ===== src/Spmc/Threads/Safety.antt =====
-- What holds after any interleaving of the producer and the consumer handles of an spmc ring.
use quetzalcoatl.Common.{
  ℕ, suc, ◌+◌, ◌-◌, ◌^◌, ◌≤◌, ◌<◌, ◌≡◌, ◌≢◌, refl, sym, ap, subst, ◌∙◌, Option, none, some, List,
  [], ◌∷◌, arith,
}
use quetzalcoatl.Common.Lists.{length}
use quetzalcoatl.Capacity.{Capacity, IsValid, index_of}
use quetzalcoatl.Capacity.Lap.{index_of-eq-mod}
use quetzalcoatl.Spmc.Ring.{new, Consumer}
use quetzalcoatl.Spmc.Ledger.{Fate, sent, claimed, reads, published, reads-skip, IsOwned, At}
use quetzalcoatl.Spmc.Threads.{
  Pushing, resting, writing, publishing, gone, Popping, idle, heading, comparing, closing,
  rechecking, reheading, swapping, reading, releasing, Threads, Turn, produce, close, consume, turn,
  interleave, start,
}
use quetzalcoatl.Spmc.Threads.Inv.{progress, Free, PopAt, Inv, start-Inv}
use quetzalcoatl.Spmc.Threads.Frame.{Free-apart}
use quetzalcoatl.Spmc.Threads.PushSteps.{push_place, push_step-Inv, close_step-Inv}
use quetzalcoatl.Spmc.Threads.Looks.{pop_place}
use quetzalcoatl.Spmc.Threads.PopSteps.{pop_step-Inv}

-- The threads that reach the slots.
pub data Party : Type 0 where
  producer : Party
  consumer : ℕ → Party

abbrev read_of : Popping → Option ℕ
read_of idle = none
read_of heading = none
read_of (comparing h) = none
read_of closing = none
read_of rechecking = none
read_of reheading = none
read_of (swapping h) = none
read_of (reading p) = some p
read_of (releasing p) = none

module _ {ℓ} {A : Type ℓ} where
  turn-Inv :
      {n : ℕ} (m : Turn A) (t : Threads A)
      → Inv (suc n) t
      → (t' : Threads A) × (turn m t ≡ some t') × Inv n t'
  unfolding turn
  turn-Inv (produce v detour) t k = push_step-Inv t.pushing v detour t refl k
  turn-Inv close t k = (_, refl, close_step-Inv t.pushing t refl k)
  turn-Inv (consume i spurious) t k = pop_step-Inv i (t.handles i).place spurious t refl k

  abbrev steps : List (Turn A) → ℕ → ℕ
  steps [] n = n
  steps (m ∷ ms) n = suc (steps ms n)

  steps-length : (ms : List (Turn A)) → steps ms 0 ≡ length ms
  steps-length [] = refl
  steps-length (m ∷ ms) = ap suc (steps-length ms)

  interleave-Inv :
      {n : ℕ} (ms : List (Turn A)) (t : Threads A)
      → Inv (steps ms n) t
      → (t' : Threads A) × (interleave ms t ≡ some t') × Inv n t'
  unfolding interleave
  interleave-Inv [] t k = (t, refl, k)
  interleave-Inv (m ∷ ms) t k =
      let (t₁, e₁, k₁) = turn-Inv m t k in
      let (t₂, e₂, k₂) = interleave-Inv ms t₁ k₁ in (t₂, rw e₁ e₂, k₂)

  run-Inv :
      (ms : List (Turn A)) (c : Capacity)
      → IsValid c
      → length ms + c.cap < 2 ^ 63
      → (t : Threads A) × (interleave ms (start (new c)) ≡ some t) × Inv 0 t
  run-Inv ms c v small =
      interleave-Inv ms (start (new c))
        (start-Inv c (steps ms 0) v (omega (arith, steps-length ms)))

  -- The first positions that a handle may still read are below the head.
  progress-le :
      (i : ℕ) (p : Popping) (c : Consumer) (f : ℕ → Fate A) (head : ℕ)
      → PopAt i p c f
      → c.batch_next ≤ head
      → progress p c ≤ head
  progress-le i idle c f head k le = le
  progress-le i heading c f head k le = le
  progress-le i (comparing h) c f head k le = le
  progress-le i closing c f head k le = le
  progress-le i rechecking c f head k le = le
  progress-le i reheading c f head k le = le
  progress-le i (swapping h) c f head k le = le
  progress-le i (reading p) c f head k le = omega (arith, k.0, le)
  progress-le i (releasing p) c f head k le = le

  received-reads :
      {n : ℕ} (t : Threads A) (i : ℕ) → Inv n t → t.received i ≡ reads i t.fate t.ring.cursors.head
  received-reads t i k =
      let h = k.handles i in
      let c = (t.handles i).consumer in
      let from = progress (t.handles i).place c in
      let head = t.ring.cursors.head in
      let le =
        progress-le i (t.handles i).place c t.fate head h.at (omega (arith, h.batch, h.behind)) in
      let reached : from + (head - from) ≡ head = omega (arith, le) in
      h.got ∙ sym (reads-skip i t.fate from (head - from) h.rest) ∙ ap (reads i t.fate) reached

  -- From an empty ring, whatever the order of the steps of the producer and of any number of consumer
  -- handles, no step is undefined behaviour; the values that the producer has published are the values of
  -- the positions below the tail, in order; what each consumer has received is what it has read at the
  -- positions that it claimed, in the order of the positions; each position below the head has been
  -- claimed by one consumer; and each position from there to the tail holds a published value that no
  -- consumer has claimed. The number of steps and the capacity are together below `2 ^ 63`.
  pub interleave_partition :
      (ms : List (Turn A)) (c : Capacity)
      → IsValid c
      → length ms + c.cap < 2 ^ 63
      → (t : Threads A) × (interleave ms (start (new c)) ≡ some t)
        × (t.pushed ≡ published t.fate t.ring.cursors.tail)
        × ((i : ℕ) → t.received i ≡ reads i t.fate t.ring.cursors.head)
        × ((p : ℕ) → p < t.ring.cursors.head → IsOwned (t.fate p))
        × ((p : ℕ)
            → t.ring.cursors.head ≤ p
            → p < t.ring.cursors.tail
            → (v : A) × (t.fate p ≡ sent v))
        × (t.ring.cursors.head ≤ t.ring.cursors.tail)
  interleave_partition ms c v small =
      let (t, e, k) = run-Inv ms c v small in
      (t, e, k.log, λ i. received-reads t i k, k.behind, k.waiting, k.ordered)

  -- The position whose value a thread may touch at its next step.
  abbrev touched : Pushing A → Option ℕ
  touched resting = none
  touched (writing pos v) = some pos
  touched (publishing pos v) = some pos
  touched gone = none

  abbrev pub access : Party → Threads A → Option ℕ
  access producer t = touched t.pushing
  access (consumer i) t = read_of (t.handles i).place

  -- A thread that is about to touch a value owns the slot, and no other thread is at that position.
  OwnedBy : Party → ℕ → (ℕ → Fate A) → ℕ → Type ℓ
  OwnedBy producer tail f p = (p ≡ tail) × Unit {ℓ}
  OwnedBy (consumer i) tail f p = (p < tail) × ((v : A) × (f p ≡ claimed i v))

  OwnedBy-unique :
      (a b : Party) (tail : ℕ) (f : ℕ → Fate A) {p q : ℕ}
      → a ≢ b
      → OwnedBy a tail f p
      → OwnedBy b tail f q
      → p ≢ q
  unfolding OwnedBy
  OwnedBy-unique producer producer tail f ne own own' same = ne refl
  OwnedBy-unique producer (consumer j) tail f ne own own' same =
      let out : ⊥ = omega (arith, own.0, own'.0) in absurd out
  OwnedBy-unique (consumer i) producer tail f ne own own' same =
      let out : ⊥ = omega (arith, own.0, own'.0) in absurd out
  OwnedBy-unique (consumer i) (consumer j) tail f ne (lt, (v, e)) (lt', (w, e')) same =
      ne (cc (e, e', ap f same))

  touched-Owned :
      (p : Pushing A) {n q : ℕ} (t : Threads A)
      → Inv n t
      → t.pushing ≡ p
      → touched p ≡ some q
      → Free t.ring.done t.ring.capacity.cap q × OwnedBy producer t.ring.cursors.tail t.fate q
  unfolding OwnedBy
  touched-Owned resting t k e at = cc at
  touched-Owned (writing pos v) {q} t k e at =
      let (here, own, u) = push_place k e in
      let same : pos ≡ q = cc at in
      (subst (Free t.ring.done t.ring.capacity.cap) same own, (sym same ∙ here, tt))
  touched-Owned (publishing pos v) {q} t k e at =
      let (here, own) = push_place k e in
      let same : pos ≡ q = cc at in
      (subst (Free t.ring.done t.ring.capacity.cap) same (own.word_at), (sym same ∙ here, tt))
  touched-Owned gone t k e at = cc at

  read_of-Owned :
      (i : ℕ) (p : Popping) {n q : ℕ} (t : Threads A)
      → Inv n t
      → (t.handles i).place ≡ p
      → read_of p ≡ some q
      → Free t.ring.done t.ring.capacity.cap q × OwnedBy (consumer i) t.ring.cursors.tail t.fate q
  unfolding OwnedBy
  read_of-Owned i idle t k e at = cc at
  read_of-Owned i heading t k e at = cc at
  read_of-Owned i (comparing h) t k e at = cc at
  read_of-Owned i closing t k e at = cc at
  read_of-Owned i rechecking t k e at = cc at
  read_of-Owned i reheading t k e at = cc at
  read_of-Owned i (swapping h) t k e at = cc at
  read_of-Owned i (reading p) {q} t k e at =
      let (up, (v, claimed_)) = pop_place k i e in
      let same : p ≡ q = cc at in
      let m = t.ring.capacity.cap in
      let kept = subst (λ x. At t.ring.storage t.ring.done m x p) claimed_ (k.slots p) in
      (
        subst (Free t.ring.done m) same (kept.word_at),
        (
          omega (arith, same, up, (k.handles i).batch, (k.handles i).behind, k.ordered),
          (v, ap t.fate (sym same) ∙ claimed_),
        ),
      )
  read_of-Owned i (releasing p) t k e at = cc at

  access-Owned :
      (a : Party) {n q : ℕ} (t : Threads A)
      → Inv n t
      → access a t ≡ some q
      → Free t.ring.done t.ring.capacity.cap q × OwnedBy a t.ring.cursors.tail t.fate q
  access-Owned producer t k at = touched-Owned t.pushing t k refl at
  access-Owned (consumer i) t k at = read_of-Owned i (t.handles i).place t k refl at

  -- From an empty ring, no interleaving leads to a state in which two different threads, the producer or
  -- consumer handles, are about to touch the value of one slot. The number of steps and the capacity are
  -- together below `2 ^ 63`.
  pub interleave_one_owner :
      (ms : List (Turn A)) (c : Capacity) (t : Threads A) (a b : Party) {p q : ℕ}
      → IsValid c
      → length ms + c.cap < 2 ^ 63
      → interleave ms (start (new c)) ≡ some t
      → a ≢ b
      → access a t ≡ some p
      → access b t ≡ some q
      → index_of t.ring.capacity p ≢ index_of t.ring.capacity q
  interleave_one_owner ms c t a b {p} {q} v small e ne at_p at_q clash =
      let (t', e', k') = run-Inv ms c v small in
      let k = subst (Inv 0) (cc (e, e')) k' in
      let (free_p, own_p) = access-Owned a t k at_p in
      let (free_q, own_q) = access-Owned b t k at_q in
      Free-apart t.ring.done t.ring.capacity.cap p q free_p free_q
        (OwnedBy-unique a b t.ring.cursors.tail t.fate ne own_p own_q)
        (sym (index_of-eq-mod k.valid p) ∙ clash ∙ index_of-eq-mod k.valid q)
