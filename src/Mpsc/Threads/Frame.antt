-- ===== src/Mpsc/Threads/Frame.antt =====
-- What a step of one thread leaves to the others.
use quetzalcoatl.Common.{
  ℕ, suc, ◌+◌, ◌%◌, ◌≤◌, ◌<◌, ◌≡◌, ◌≢◌, sym, ap, subst, ◌∙◌, inl, inr, Option, none, some, List,
  arith,
}
use native.Mathlib.Decide.{dec_lt}
use quetzalcoatl.Common.Tests.{◌==◌, ==_iff, Bool-cases}
use quetzalcoatl.Capacity.Lap.{mod-ne}
use quetzalcoatl.Park.ThreadParker.{Thread}
use quetzalcoatl.Park.SoleParker.{SoleParker}
use quetzalcoatl.Park.WakeSet.{WakeSet}
use quetzalcoatl.Mpsc.Board.{
  Fate, pending, IsSettled, values-update, update, update_self, update-ne,
}
use quetzalcoatl.Mpsc.Threads.{
  Pushing, resting, checking, swapping, writing, publishing, abandoning, Popping, testing, reading,
  releasing, advancing, Handle, Threads,
}
use quetzalcoatl.Mpsc.Threads.Inv.{low, high, PopAt, PushAt, HandleAt, Inv}

-- Different positions of one lap have different slots.
pub mod-apart :
    (m l a b : ℕ) → 0 < m → l ≤ a → a < l + m → l ≤ b → b < l + m → a ≢ b → a % m ≢ b % m
mod-apart m l a b pos la ha lb hb ne e = elim (dec_lt a b) [
  | yes below ↦ mod-ne m a b pos below (omega arith) e
  | no above ↦ mod-ne m b a pos (omega arith) (omega arith) (sym e)
]

pub high-low : (p : Popping) (head m : ℕ) → high p head m ≤ low p head + m
high-low testing head m = omega arith
high-low (reading x) head m = omega arith
high-low (releasing x) head m = omega arith
high-low (advancing x) head m = omega arith

pub high-le : (p : Popping) (head m : ℕ) → head + m ≤ high p head m
high-le testing head m = omega arith
high-le (reading x) head m = omega arith
high-le (releasing x) head m = omega arith
high-le (advancing x) head m = omega arith

module _ {ℓ} {A : Type ℓ} where
  pub settled-ne : (f : ℕ → Fate A) {a b : ℕ} → IsSettled (f a) → ¬ IsSettled (f b) → b ≢ a
  settled-ne f s u e = u (subst (λ x. IsSettled (f x)) (sym e) s)

  pub IsSettled-suc :
      (f : ℕ → Fate A) (head : ℕ) {q : ℕ}
      → ((q : ℕ) → q < head → IsSettled (f q))
      → IsSettled (f head)
      → q < suc head
      → IsSettled (f q)
  IsSettled-suc f head {q} behind here lt = elim (dec_lt q head) [
    | yes lower ↦ behind q lower
    | no at ↦ let same : head ≡ q = omega arith in subst (λ q. IsSettled (f q)) same here
  ]

  -- A position that is still open is one whose slot the consumer has not taken.
  pub low-open :
      (p : Popping) (f : ℕ → Fate A) (out : List A) (head pos : ℕ)
      → PopAt p f out head
      → head ≤ pos
      → ¬ IsSettled (f pos)
      → low p head ≤ pos
  low-open testing f out head pos k le u = le
  low-open (reading x) f out head pos k le u = le
  low-open (releasing x) f out head pos (e, s, o) le u = omega (arith, settled-ne f s u)
  low-open (advancing x) f out head pos (e, s, o) le u = omega (arith, settled-ne f s u)

  -- The consumer does not see a change of the fate of an open position.
  pub PopAt-update :
      (p : Popping) (f : ℕ → Fate A) (out : List A) (head pos : ℕ) (x : Fate A)
      → PopAt p f out head
      → head ≤ pos
      → ¬ IsSettled (f pos)
      → PopAt p (update f pos x) out head
  PopAt-update testing f out head pos x k le u = k ∙ sym (values-update f pos head x le)
  PopAt-update (reading y) f out head pos x (e, (v, s), o) le u = (
    e,
    (v, update-ne f pos head x (λ q. u (subst IsSettled (sym (ap f (sym q) ∙ s)) tt)) ∙ s),
    o ∙ sym (values-update f pos head x le),
  )
  PopAt-update (releasing y) f out head pos x (e, s, o) le u = (
    e,
    subst IsSettled (sym (update-ne f pos head x (λ q. settled-ne f s u (sym q)))) s,
    o ∙ sym (values-update f pos (suc head) x (omega (arith, settled-ne f s u))),
  )
  PopAt-update (advancing y) f out head pos x (e, s, o) le u = (
    e,
    subst IsSettled (sym (update-ne f pos head x (λ q. settled-ne f s u (sym q)))) s,
    o ∙ sym (values-update f pos (suc head) x (omega (arith, settled-ne f s u))),
  )

  -- A handle keeps its place while the fates of its own positions stay and the head does not pass them.
  pub HandleAt-keep :
      (i : ℕ) (h : Handle A) (f g : ℕ → Fate A) (head tail head' tail' m : ℕ)
      → head ≤ head'
      → tail ≤ tail'
      → ((pos : ℕ) (o : Option A)
          → head ≤ pos
          → f pos ≡ pending i o
          → (head' ≤ pos) × (g pos ≡ f pos))
      → HandleAt i h f head tail m
      → HandleAt i h g head' tail' m
  HandleAt-keep i h f g head tail head' tail' m up up' keep k = record {
    old = omega (arith, k.old);
    at = go h.place k.at;
  }
    where
      go :
          (p : Pushing A)
          → PushAt i h f head tail (head + m) p
          → PushAt i h g head' tail' (head' + m) p
      go resting k = tt
      go (checking t v) (a, b, c) = (a, omega arith, tt)
      go (swapping t v) (a, b, c) = (omega arith, omega arith, tt)
      go (writing pos v) (a, b, c) = let (a', e) = keep pos none a c in (a', omega arith, e ∙ c)
      go (publishing pos v) (a, b, c) =
          let (a', e) = keep pos (some v) a c in (a', omega arith, e ∙ c)
      go (abandoning pos) (a, b, c) = let (a', e) = keep pos none a c in (a', omega arith, e ∙ c)

  pub pending-owner :
      (f : ℕ → Fate A) (x : Fate A) (i j p q : ℕ) (o o' : Option A)
      → j ≢ i
      → f p ≡ pending i o
      → f q ≡ pending j o'
      → update f p x q ≡ f q
  pending-owner f x i j p q o o' ne e e' = update-ne f p q x (λ same. ne (cc (e, e', ap f same)))

  -- All handles, after one of them moved.
  pub put-HandleAt :
      (hs : ℕ → Handle A) (i : ℕ) (h : Handle A) (f g : ℕ → Fate A) (head tail head' tail' m : ℕ)
      → ((j : ℕ) → HandleAt j (hs j) f head tail m)
      → HandleAt i h g head' tail' m
      → ((j : ℕ) → j ≢ i → HandleAt j (hs j) f head tail m → HandleAt j (hs j) g head' tail' m)
      → (j : ℕ) → HandleAt j (update hs i h j) g head' tail' m
  put-HandleAt hs i h f g head tail head' tail' m all mine others j = elim (Bool-cases (j == i)) [
    | inl same ↦
        let e = (==_iff j i).0 same in
        subst (λ j. HandleAt j (update hs i h j) g head' tail' m) (sym e)
          (subst (λ h. HandleAt i h g head' tail' m) (sym (update_self hs i h)) mine)
    | inr other ↦
        let ne : j ≢ i = λ e. cc (other, (==_iff j i).1 e) in
        subst (λ h. HandleAt j h g head' tail' m) (sym (update-ne hs i j h ne))
          (others j ne (all j))
  ]

  -- The park states are no concern of the ring's.
  pub Inv-parks :
      {n : ℕ} (t : Threads A) (a : WakeSet) (b : SoleParker) (c : List Thread)
      → Inv n t
      → Inv n (record t {
        ring = record (t.ring) { producer_park = a; consumer_park = b; unparked = c };
      })
  Inv-parks t a b c k = record {
    valid = k.valid;
    storage = k.storage;
    small = k.small;
    ordered = k.ordered;
    room = k.room;
    slots = k.slots;
    ahead = k.ahead;
    behind = k.behind;
    popping = k.popping;
    handles = k.handles;
  }
