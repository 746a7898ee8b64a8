-- ===== src/Spmc/Threads/Inv.antt =====
-- What holds of an spmc ring, its producer and its consumer handles between any two steps, when `n` steps
-- are to come and no position reaches half of `usize`.
use quetzalcoatl.Common.{
  ℕ, zero, suc, ◌+◌, ◌%◌, ◌^◌, ◌≤◌, ◌<◌, ◌≡◌, refl, ap, ◌∙◌, Option, none, some, List, [], arith,
}
use quetzalcoatl.Common.Lists.{length, get_elem?, length-replicate}
use quetzalcoatl.Capacity
use quetzalcoatl.Capacity.{Capacity, IsValid}
use quetzalcoatl.Slot.Done.{DoneWord, released_for}
use quetzalcoatl.Spmc.Ring.{new, words_from, Consumer}
use quetzalcoatl.Spmc.Ledger.{
  Fate, unsent, sent, claimed, taken, read_by, reads, published, IsOwned, Kept, At,
}
use quetzalcoatl.Spmc.Threads.{
  Pushing, resting, writing, publishing, gone, Popping, idle, heading, comparing, closing,
  rechecking, reheading, swapping, reading, releasing, Handle, Threads, start,
}

words_from-at :
    (slot n p : ℕ) → p < n → get_elem? (words_from slot n) p ≡ some (released_for (slot + p))
unfolding words_from
words_from-at slot zero p h = elim h [ ]
words_from-at slot (suc n) zero h =
    let same : slot ≡ slot + 0 = omega arith in ap (λ (k : ℕ). some (released_for k)) same
words_from-at slot (suc n) (suc p) h =
    let next : suc slot + p ≡ slot + suc p = omega arith in
    words_from-at (suc slot) n p (omega arith) ∙ ap (λ (k : ℕ). some (released_for k)) next

length-words_from : (slot n : ℕ) → length (words_from slot n) ≡ n
unfolding words_from
length-words_from slot zero = refl
length-words_from slot (suc n) = ap suc (length-words_from (suc slot) n)

-- The first position that the handle may still read.
abbrev pub progress : Popping → Consumer → ℕ
progress idle c = c.batch_next
progress heading c = c.batch_next
progress (comparing h) c = c.batch_next
progress closing c = c.batch_next
progress rechecking c = c.batch_next
progress reheading c = c.batch_next
progress (swapping h) c = c.batch_next
progress (reading p) c = p
progress (releasing p) c = c.batch_next

-- The word of a position's slot says that the slot belongs to it.
abbrev pub Free : List DoneWord → ℕ → ℕ → Type 0
Free done m p = get_elem? done (p % m) ≡ some (record { at = p })

module _ {ℓ} {A : Type ℓ} where
  abbrev pub PushAt : List (Option A) → List DoneWord → (m tail : ℕ) → Pushing A → Type ℓ
  PushAt values done m tail resting = Unit
  PushAt values done m tail (writing pos v) = (pos ≡ tail) × Free done m pos × Unit {ℓ}
  PushAt values done m tail (publishing pos v) = (pos ≡ tail) × Kept values done m pos (some v)
  PushAt values done m tail gone = Unit

  abbrev pub PopAt : ℕ → Popping → Consumer → (ℕ → Fate A) → Type ℓ
  PopAt i idle c f = Unit
  PopAt i heading c f = Unit
  PopAt i (comparing h) c f = Unit
  PopAt i closing c f = Unit
  PopAt i rechecking c f = Unit
  PopAt i reheading c f = Unit
  PopAt i (swapping h) c f = (h < c.cached_tail) × Unit {ℓ}
  PopAt i (reading p) c f = (suc p ≡ c.batch_next) × ((v : A) × (f p ≡ claimed i v))
  PopAt i (releasing p) c f = (p < c.batch_next) × ((v : A) × (f p ≡ taken i v))

  pub record HandleAt (i : ℕ) (h : Handle) (f : ℕ → Fate A) (out : List A) (head tail : ℕ)
      : Type ℓ where
    pub old : h.consumer.cached_tail ≤ tail
    pub batch : h.consumer.batch_next ≤ h.consumer.batch_end
    pub behind : h.consumer.batch_end ≤ head
    pub mine :
        (p : ℕ)
        → h.consumer.batch_next ≤ p
        → p < h.consumer.batch_end
        → (v : A) × (f p ≡ claimed i v)
    pub at : PopAt i h.place h.consumer f
    pub got : out ≡ reads i f (progress h.place h.consumer)
    pub rest : (p : ℕ) → progress h.place h.consumer ≤ p → read_by i (f p) ≡ []

  pub record Inv (n : ℕ) (t : Threads A) : Type ℓ where
    pub valid : IsValid t.ring.capacity
    pub values : length t.ring.storage ≡ t.ring.capacity.cap
    pub words : length t.ring.done ≡ t.ring.capacity.cap
    pub small : t.ring.cursors.tail + n + t.ring.capacity.cap < 2 ^ 63
    pub ordered : t.ring.cursors.head ≤ t.ring.cursors.tail
    pub cursor : t.producer.write_pos ≡ t.ring.cursors.tail
    pub slots : (p : ℕ) → At t.ring.storage t.ring.done t.ring.capacity.cap (t.fate p) p
    pub ahead : (p : ℕ) → t.ring.cursors.tail ≤ p → t.fate p ≡ unsent
    pub waiting :
        (p : ℕ) → t.ring.cursors.head ≤ p → p < t.ring.cursors.tail → (v : A) × (t.fate p ≡ sent v)
    pub behind : (p : ℕ) → p < t.ring.cursors.head → IsOwned (t.fate p)
    pub log : t.pushed ≡ published t.fate t.ring.cursors.tail
    pub pushing :
        PushAt t.ring.storage t.ring.done t.ring.capacity.cap t.ring.cursors.tail t.pushing
    pub handles :
        (i : ℕ)
        → HandleAt i (t.handles i) t.fate (t.received i) t.ring.cursors.head t.ring.cursors.tail

  pub start-Inv :
      (c : Capacity) (n : ℕ) → IsValid c → n + c.cap < 2 ^ 63 → Inv n (start (new {A = A} c))
  unfolding start new Capacity.get released_for
  start-Inv c n v small = record {
    valid = v;
    values = length-replicate c.cap none;
    words = length-words_from 0 c.cap;
    small = omega arith;
    ordered = omega arith;
    cursor = refl;
    slots = λ p. tt;
    ahead = λ p h. refl;
    waiting = λ p from to. elim to [ ];
    behind = λ p h. elim h [ ];
    log = refl;
    pushing = tt;
    handles = λ i. record {
      old = omega arith;
      batch = omega arith;
      behind = omega arith;
      mine = λ p from to. elim to [ ];
      at = tt;
      got = refl;
      rest = λ p h. refl;
    };
  }
