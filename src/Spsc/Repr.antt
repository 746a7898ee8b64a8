-- ===== src/Spsc/Repr.antt =====
-- When a ring holds a queue: the cursors are words of unbounded positions, and the slots from the
-- head on hold the items.
use quetzalcoatl.Common.{
  ℕ, suc, ◌+◌, ◌%◌, ◌≤◌, ◌<◌, ◌≡◌, ◌≢◌, refl, ap, ◌∙◌, Option, none, some, List, [], ◌∷◌, ◌++◌,
  arith,
}
use quetzalcoatl.Common.Lists.{length, get_elem?, set, get_elem?-set_ne, length-replicate}
use quetzalcoatl.Common.Words.{word}
use quetzalcoatl.Capacity
use quetzalcoatl.Capacity.{Capacity, IsValid}
use quetzalcoatl.Capacity.Lap.{index_of-word}
use quetzalcoatl.Sync.Cursors.{Cursors}
use quetzalcoatl.Spsc.Ring.{
  RingBuffer, Producer, Consumer, Spsc, new, split, note_unpark, take_slot, wake_producer,
  wake_consumer,
}

-- The producer's cells, for items at the positions from `first` below `last`: the cache stands for a
-- position that the head has passed, less than a lap behind what may be written.
pub record Writes (p : Producer) (m first last : ℕ) : Type 0 where
  pub seen_head : ℕ
  pub write_at : p.write_pos ≡ word last
  pub cached_at : p.cached_head ≡ word seen_head
  pub old : seen_head ≤ first
  pub room : last ≤ seen_head + m

-- The consumer's cell: the cache stands for a position that the tail has passed.
pub record Reads (k : Consumer) (first last : ℕ) : Type 0 where
  pub seen_tail : ℕ
  pub cached_at : k.cached_tail ≡ word seen_tail
  pub low : first ≤ seen_tail
  pub high : seen_tail ≤ last

module _ {ℓ} {A : Type ℓ} where
  -- The slots of the positions from `n` on hold these items.
  abbrev pub Stored : List (Option A) → ℕ → ℕ → List A → Type ℓ
  Stored buf cap n [] = Unit
  Stored buf cap n (v ∷ q) = (get_elem? buf (n % cap) ≡ some (some v)) × Stored buf cap (suc n) q

  -- The shared part of a ring: `first` is the position of the oldest item, counted without wrapping.
  pub record Items (buf : List (Option A)) (c : Capacity) (cursors : Cursors) (first : ℕ)
      (q : List A) : Type ℓ where
    pub valid : IsValid c
    pub storage : length buf ≡ c.cap
    pub head_at : cursors.head ≡ word first
    pub tail_at : cursors.tail ≡ word (first + length q)
    pub fits : length q ≤ c.cap
    pub stored : Stored buf c.cap first q

  pub record Repr (s : Spsc A) (q : List A) : Type ℓ where
    pub first : ℕ
    pub items : Items s.ring.buf s.ring.capacity s.ring.cursors first q
    pub writes : Writes s.producer s.ring.capacity.cap first (first + length q)
    pub reads : Reads s.consumer first (first + length q)

  -- A write to another slot keeps the items.
  pub Stored-set :
      (buf : List (Option A)) (m i n : ℕ) (o : Option A) (q : List A)
      → ((j : ℕ) → j < length q → i ≢ (n + j) % m)
      → Stored buf m n q
      → Stored (set buf i o) m n q
  Stored-set buf m i n o [] apart h = tt
  Stored-set buf m i n o (v ∷ q) apart h = (
    get_elem?-set_ne buf o (λ e. apart 0 (omega arith) (e ∙ at_first)) ∙ h.0,
    Stored-set buf m i (suc n) o q (λ j lt e. apart (suc j) (omega arith) (e ∙ shift j)) h.1,
  )
    where
      at_first : n % m ≡ (n + 0) % m
      at_first = ap (λ (k : ℕ). k % m) (omega arith)

      shift : (j : ℕ) → (suc n + j) % m ≡ (n + suc j) % m
      shift j = ap (λ (k : ℕ). k % m) (omega arith)

  pub Stored-append :
      (buf : List (Option A)) (m n i : ℕ) (v : A) (q : List A)
      → i ≡ n + length q
      → get_elem? buf (i % m) ≡ some (some v)
      → Stored buf m n q
      → Stored buf m n (q ++ (v ∷ []))
  Stored-append buf m n i v [] e here h =
      (ap (λ (k : ℕ). get_elem? buf (k % m)) (omega arith) ∙ here, tt)
  Stored-append buf m n i v (w ∷ q) e here h =
      (h.0, Stored-append buf m (suc n) i v q (omega arith) here h.1)

  pub take_slot-word :
      (r : RingBuffer A) (pos n : ℕ) (v : A)
      → IsValid r.capacity
      → pos ≡ word n
      → get_elem? r.buf (n % r.capacity.cap) ≡ some (some v)
      → take_slot pos r ≡ some (v, record r { buf = set r.buf (n % r.capacity.cap) none })
  unfolding take_slot
  take_slot-word r pos n v valid e h = ground (arith, index_at)
    where
      index_at : Capacity.index_of r.capacity pos ≡ n % r.capacity.cap
      index_at = rw e (index_of-word valid n)

  -- A wake changes the park state and the record of unparked threads only.
  pub buf-wake_producer : (r : RingBuffer A) → (wake_producer r).buf ≡ r.buf
  unfolding wake_producer note_unpark
  buf-wake_producer r = ground arith

  pub capacity-wake_producer : (r : RingBuffer A) → (wake_producer r).capacity ≡ r.capacity
  unfolding wake_producer note_unpark
  capacity-wake_producer r = ground arith

  pub cursors-wake_producer : (r : RingBuffer A) → (wake_producer r).cursors ≡ r.cursors
  unfolding wake_producer note_unpark
  cursors-wake_producer r = ground arith

  pub buf-wake_consumer : (r : RingBuffer A) → (wake_consumer r).buf ≡ r.buf
  unfolding wake_consumer note_unpark
  buf-wake_consumer r = ground arith

  pub capacity-wake_consumer : (r : RingBuffer A) → (wake_consumer r).capacity ≡ r.capacity
  unfolding wake_consumer note_unpark
  capacity-wake_consumer r = ground arith

  pub cursors-wake_consumer : (r : RingBuffer A) → (wake_consumer r).cursors ≡ r.cursors
  unfolding wake_consumer note_unpark
  cursors-wake_consumer r = ground arith

pub ruleset wakes = (
  buf-wake_producer, capacity-wake_producer, cursors-wake_producer, buf-wake_consumer,
  capacity-wake_consumer, cursors-wake_consumer,
)

-- A fresh ring holds no item.
pub split-Repr {ℓ} : {A : Type ℓ} (c : Capacity) → IsValid c → Repr {A = A} (split (new c)) []
unfolding split new Capacity.get
split-Repr c v = record {
  first = 0;
  items = record {
    valid = v;
    storage = length-replicate c.cap none;
    head_at = refl;
    tail_at = refl;
    fits = omega arith;
    stored = tt;
  };
  writes = record {
    seen_head = 0;
    write_at = refl;
    cached_at = refl;
    old = omega arith;
    room = omega arith;
  };
  reads = record { seen_tail = 0; cached_at = refl; low = omega arith; high = omega arith };
}
