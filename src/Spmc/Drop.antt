-- ===== src/Spmc/Drop.antt =====
-- The drop of a consumer handle of an spmc ring: what becomes of the batch that it has claimed, and who is
-- woken.
use quetzalcoatl.Common.{
  ℕ, zero, suc, ◌+◌, ◌-◌, ◌%◌, ◌≤◌, ◌<◌, ◌≡◌, ◌≢◌, refl, sym, ap, subst, ◌∙◌, inl, inr, true,
  Option, none, some, List, [], ◌∷◌, arith,
}
use native.Mathlib.Decide.{dec_lt}
use native.Mathlib.Nat.{mod-lt}
use quetzalcoatl.Common.Tests.{◌==◌, if◌then◌else◌, Bool-cases}
use quetzalcoatl.Common.Lists.{
  length, get_elem?, set, length-set, get_elem?-set_self, get_elem?-set_ne,
}
use quetzalcoatl.Capacity.{IsValid}
use quetzalcoatl.Capacity.Lap.{cap_pos}
use quetzalcoatl.Sync.Cursors.{positions}
use quetzalcoatl.Sync.CloseState
use quetzalcoatl.Sync.EndpointCount
use quetzalcoatl.Park.ParkRegistry.{ParkSlot}
use quetzalcoatl.Slot.Done
use quetzalcoatl.Slot.Done.{DoneWord}
use quetzalcoatl.Spsc.Consumer.{emptied}
use quetzalcoatl.Spmc.Ring.{RingBuffer, Consumer, wake_producer}
use quetzalcoatl.Spmc.Access.{take_slot-at, release_slot-at}
use quetzalcoatl.Spmc.Consumer.{drop_claimed, drop_close, drop_consumer}
use quetzalcoatl.Spmc.Ledger.{Kept}
use quetzalcoatl.Spmc.Threads.Frame.{Kept-set_value, Kept-set_word, Free-apart}

module _ {ℓ} {A : Type ℓ} where
  abbrev pub values_at : (ℕ → A) → (lo n : ℕ) → List A
  values_at val lo zero = []
  values_at val lo (suc n) = val lo ∷ values_at val (suc lo) n

  -- The `n` positions from `lo` hold the values `val` and wait for their consumer.
  pub record Batch (r : RingBuffer A) (val : ℕ → A) (lo n : ℕ) : Type ℓ where
    pub valid : IsValid r.capacity
    pub words : length r.done ≡ r.capacity.cap
    pub held : (p : ℕ) → lo ≤ p → p < lo + n → Kept r.storage r.done r.capacity.cap p (some (val p))

  -- The slots of these positions are free for the next lap, and nothing else of the ring has changed but
  -- their values.
  record Released (r r' : RingBuffer A) (lo n : ℕ) : Type ℓ where
    pub rest : r' ≡ record r { storage = r'.storage; done = r'.done }
    pub freed :
        (p : ℕ)
        → lo ≤ p
        → p < lo + n
        → get_elem? r'.done (p % r.capacity.cap)
          ≡ some (Done.release p r.capacity (record { at = p }))
    pub others :
        (i : ℕ)
        → ((p : ℕ) → lo ≤ p → p < lo + n → p % r.capacity.cap ≢ i)
        → get_elem? r'.done i ≡ get_elem? r.done i

  abbrev drop_one : RingBuffer A → ℕ → RingBuffer A
  drop_one r p = record r {
    storage = set r.storage (p % r.capacity.cap) none;
    done = set r.done (p % r.capacity.cap) (Done.release p r.capacity (record { at = p }));
  }

  drop_one-Batch :
      (r : RingBuffer A) (val : ℕ → A) (lo n : ℕ)
      → Batch r val lo (suc n)
      → Batch (drop_one r lo) val (suc lo) n
  drop_one-Batch r val lo n b =
      let own = (b.held lo (omega arith) (omega arith)).word_at in
      record {
        valid = b.valid;
        words = length-set r.done _ _ ∙ b.words;
        held = λ p from to.
            let ne : lo ≢ p = omega arith in
            Kept-set_word (set r.storage (lo % r.capacity.cap) none) r.done r.capacity.cap lo p _
              own ne
              (Kept-set_value r.storage r.done r.capacity.cap lo p none own ne
                (b.held p (omega arith) (omega arith)));
      }

  drop_one-Released :
      (r r' : RingBuffer A) (val : ℕ → A) (lo n : ℕ)
      → Batch r val lo (suc n)
      → Released (drop_one r lo) r' (suc lo) n
      → Released r r' lo (suc n)
  drop_one-Released r r' val lo n b k =
      let own = (b.held lo (omega arith) (omega arith)).word_at in
      let m = r.capacity.cap in
      let freed_word = Done.release lo r.capacity (record { at = lo }) in
      record {
        rest = k.rest;
        freed = λ p from to. elim (dec_lt lo p) [
          | yes later ↦ k.freed p later (omega arith)
          | no first ↦
              let same : lo ≡ p = omega arith in
              subst
                (λ p.
                  get_elem? r'.done (p % m) ≡ some (Done.release p r.capacity (record { at = p })))
                same
                (k.others (lo % m) (λ q from to e.
                    Free-apart r.done m q lo ((b.held q (omega arith) (omega arith)).word_at) own
                      (omega arith) e)
                  ∙ get_elem?-set_self r.done (lo % m) freed_word
                      (rw b.words (mod-lt lo (cap_pos b.valid))))
        ];
        others = λ i apart.
            k.others i (λ p from to. apart p (omega arith) (omega arith))
            ∙ get_elem?-set_ne r.done freed_word (apart lo (omega arith) (omega arith));
      }

  drop_claimed-all :
      (r : RingBuffer A) (val : ℕ → A) (lo n : ℕ)
      → Batch r val lo n
      → (r' : RingBuffer A) × (drop_claimed (λ v. true) (positions lo n) r
          ≡ some (values_at val lo n, emptied, r'))
        × Released r r' lo n
  unfolding drop_claimed positions
  drop_claimed-all r val lo zero b = (
    r,
    refl,
    record {
      rest = refl;
      freed = λ p from to. let out : ⊥ = omega arith in absurd out;
      others = λ i apart. refl;
    },
  )
  drop_claimed-all r val lo (suc n) b =
      let k = b.held lo (omega arith) (omega arith) in
      let (r', e, out) =
        drop_claimed-all (drop_one r lo) val (suc lo) n (drop_one-Batch r val lo n b) in
      let emptied_slot = record r { storage = set r.storage (lo % r.capacity.cap) none } in
      (
        r',
        rw
            (
              take_slot-at r lo b.valid (k.value_at),
              release_slot-at emptied_slot lo b.valid (k.word_at),
              e,
            )
            refl,
        drop_one-Released r r' val lo n b out,
      )

  -- The retirement of a handle of `r`, after changes of the slots: the last one closes its side and wakes
  -- the producer, another one does neither.
  record Retired (r r' : RingBuffer A) : Type ℓ where
    pub unparked :
        r'.unparked
        ≡ (if r.consumer_count_live.live == 1 then (wake_producer r).unparked else r.unparked)
    pub parked : r'.producer_park ≡ (
        if r.consumer_count_live.live == 1
        then (wake_producer r).producer_park
        else r.producer_park)
    pub closed :
        r'.consumer_closed.closed
        ≡ (if r.consumer_count_live.live == 1 then true else r.consumer_closed.closed)

  retire :
      (r : RingBuffer A) (storage : List (Option A)) (done : List DoneWord) (park_slot : ParkSlot)
      → let r₁ = record r { storage = storage; done = done } in
        Retired r (drop_close park_slot r₁) × ((drop_close park_slot r₁).done ≡ done)
  unfolding drop_close wake_producer EndpointCount.release CloseState.close
  retire r storage done park_slot = elim (Bool-cases (r.consumer_count_live.live == 1)) [
    | inl last ↦
        rw last
          (record { unparked = rw last refl; parked = rw last refl; closed = rw last refl }, refl)
    | inr more ↦
        rw more
          (record { unparked = rw more refl; parked = rw more refl; closed = rw more refl }, refl)
  ]

  -- The drop of a handle whose destructors return is defined, for a claimed batch whose positions hold
  -- their values: it drops these in order, and gives the slot of each back for the next lap; the producer
  -- is woken and the consumers' side closed if this is the last live handle, and otherwise neither the
  -- producer's park state nor the threads unparked change, though slots were given back.
  pub drop_consumer-wakes :
      (c : Consumer) (r : RingBuffer A) (val : ℕ → A)
      → c.batch_next ≤ c.batch_end
      → Batch r val c.batch_next (c.batch_end - c.batch_next)
      → (r' : RingBuffer A) × (drop_consumer (λ v. true) c r
          ≡ some (values_at val c.batch_next (c.batch_end - c.batch_next), emptied, r'))
        × ((p : ℕ)
            → c.batch_next ≤ p
            → p < c.batch_end
            → get_elem? r'.done (p % r.capacity.cap)
              ≡ some (Done.release p r.capacity (record { at = p })))
        × (r'.unparked
            ≡ (if r.consumer_count_live.live == 1 then (wake_producer r).unparked else r.unparked))
        × (r'.producer_park ≡ (
            if r.consumer_count_live.live == 1
            then (wake_producer r).producer_park
            else r.producer_park))
        × (r'.consumer_closed.closed
            ≡ (if r.consumer_count_live.live == 1 then true else r.consumer_closed.closed))
  unfolding drop_consumer
  drop_consumer-wakes c r val le b =
      let (r₁, e, k) = drop_claimed-all r val c.batch_next (c.batch_end - c.batch_next) b in
      let (out, same) =
        subst
          (λ x. Retired r (drop_close c.park_slot x) × ((drop_close c.park_slot x).done ≡ r₁.done))
          (sym k.rest) (retire r r₁.storage r₁.done c.park_slot) in
      (
        drop_close c.park_slot r₁,
        rw e refl,
        λ p from to. ap (λ l. get_elem? l (p % r.capacity.cap)) same ∙ k.freed p from (omega arith),
        out.unparked,
        out.parked,
        out.closed,
      )
