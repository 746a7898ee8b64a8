-- ===== src/Broadcast/Claim.antt =====
-- The tests before a claim in a broadcast ring: the caches of the floor answer as a scan would, and the
-- loop of the claim ends.
use native.Mathlib.Nat.{add-mod_right}
use native.Mathlib.Decide.{dec_lt}
use quetzalcoatl.Common.{
  ℕ, zero, suc, ◌+◌, ◌-◌, ◌%◌, ◌^◌, ◌≤◌, ◌<◌, ◌≡◌, ◌⊎◌, refl, sym, ap, ◌∙◌, inl, inr, Option, none,
  some, arith, Bool, true, false,
}
use quetzalcoatl.Common.Tests.{==_iff, Bool-cases}
use quetzalcoatl.Common.Lists.{get_elem?}
use quetzalcoatl.Common.Words.{add_usize}
use quetzalcoatl.Capacity
use quetzalcoatl.Capacity.{IsValid}
use quetzalcoatl.Capacity.Lap.{cap_pos, index_of-eq-mod}
use quetzalcoatl.Slot.State.{
  published_word, abandoned_word, decode, holds_value, decode-published, decode-abandoned,
  decode-vacant, is_claim_in_progress,
}
use quetzalcoatl.Broadcast.Floor.{
  FloorCache, SharedFloor, at, permits, cache_permits, cache_permits-permits,
}
use quetzalcoatl.Broadcast.Registry
use quetzalcoatl.Broadcast.Ring.{
  BroadcastSlot, RingBuffer, Producer, slot, consumer_floor, prior_occupant_resolved,
}
use quetzalcoatl.Broadcast.Producer.{permits_with_refresh, may_claim, swap_tail, claim_loop}
use quetzalcoatl.Broadcast.Log.{HoldsAt, Logged}

module _ {ℓ} {A : Type ℓ} where
  -- The floor that a scan answers, which the caches are not ahead of.
  pub record Cached (p : Producer) (r : RingBuffer A) (head : ℕ) : Type 0 where
    pub own : p.floor_cache.private_ ≤ head
    pub shared_ : r.min_head_cache.head ≤ head
    pub scan : consumer_floor r ≡ at head

  permits_with_refresh-permits :
      (pos : ℕ) (p : Producer) (r : RingBuffer A) (head : ℕ)
      → Cached p r head
      → (c : FloorCache) × (s : SharedFloor) × (permits_with_refresh pos p r ≡ (
        permits (at head) pos r.capacity.cap,
        record p { floor_cache = c },
        record r { min_head_cache = s },
      ))
        × (c.private_ ≤ head)
        × (s.head ≤ head)
  unfolding permits_with_refresh Capacity.get
  permits_with_refresh-permits pos p r head k =
      let any = Registry.any_subscribed r.consumers in
      let (answer, own, shared_) =
        cache_permits-permits p.floor_cache r.min_head_cache any pos r.capacity.cap head k.own
          k.shared_ in
      let c = (cache_permits p.floor_cache pos r.capacity.cap any r.min_head_cache (at head)).1 in
      let s = (cache_permits p.floor_cache pos r.capacity.cap any r.min_head_cache (at head)).2 in
      (
        c,
        s,
        rw (k.scan) (
            ap (λ (a : Bool). (a, record p { floor_cache = c }, record r { min_head_cache = s }))
              answer),
        own,
        shared_,
      )

  -- The slot that the tail comes to: its claim is not in progress, and a value that its word tells of is
  -- there.
  pub record Vacates (s : BroadcastSlot A) (cap tail : ℕ) : Type ℓ where
    pub resolved : prior_occupant_resolved cap tail s.sequence ≡ true
    pub holding :
        (holds_value (decode s.sequence.at) ≡ false)
        ⊎ ((holds_value (decode s.sequence.at) ≡ true) × ((v : A) × (s.data_ ≡ some v)))

  HoldsAt-Vacates :
      (x : Option A) (s : BroadcastSlot A) (p cap tail : ℕ)
      → p < 2 ^ 63 - 1
      → HoldsAt x p s
      → Vacates s cap tail
  unfolding prior_occupant_resolved is_claim_in_progress holds_value published_word abandoned_word
  HoldsAt-Vacates (some v) s p cap tail small (word, held) = record {
    resolved = ground arith;
    holding = inr (
      ap (λ (w : ℕ). holds_value (decode w)) word ∙ ap holds_value (decode-published p small),
      (v, held),
    );
  }
  HoldsAt-Vacates none s p cap tail small (word, u) = record {
    resolved = ground arith;
    holding =
        inl
          (ap (λ (w : ℕ). holds_value (decode w)) word ∙ ap holds_value (decode-abandoned p small));
  }

  pub tail_slot :
      {log : ℕ → Option A} {r : RingBuffer A}
      → Logged log r
      → (s : BroadcastSlot A) × (get_elem? r.buf (r.tail % r.capacity.cap) ≡ some s)
        × Vacates s r.capacity.cap r.tail
  unfolding prior_occupant_resolved holds_value
  tail_slot {log} {r} k = elim (dec_lt r.tail r.capacity.cap) [
    | yes first ↦
        let (s, e, word) = k.unreached r.tail (omega arith) first in
        (
          s,
          e,
          record {
            resolved = ground arith;
            holding =
                inl (ap (λ (w : ℕ). holds_value (decode w)) word ∙ ap holds_value decode-vacant);
          },
        )
    | no later ↦
        let m = r.capacity.cap in
        let p = r.tail - m in
        let back : p + m ≡ r.tail = omega arith in
        let old = k.slots p (omega (arith, cap_pos k.valid)) (omega arith) in
        let share : r.tail % m ≡ p % m = ap (λ t. t % m) (sym back) ∙ add-mod_right p m in
        (
          old.here,
          ap (get_elem? r.buf) share ∙ old.found,
          HoldsAt-Vacates (log p) old.here p m r.tail (omega (arith, k.small)) old.holds,
        )
  ]

  may_claim-permits :
      {log : ℕ → Option A} (p : Producer) (r : RingBuffer A) (head : ℕ)
      → Logged log r
      → Cached p r head
      → (c : FloorCache) × (s : SharedFloor) × (may_claim r.tail p r
          ≡ some (
            permits (at head) r.tail r.capacity.cap,
            record p { floor_cache = c },
            record r { min_head_cache = s },
          ))
        × (c.private_ ≤ head)
        × (s.head ≤ head)
  unfolding may_claim slot Capacity.get
  may_claim-permits p r head k cache =
      let (c, s, e, own, shared_) = permits_with_refresh-permits r.tail p r head cache in
      let (here, found, v) = tail_slot k in
      (
        c,
        s,
        rw (e, ap (get_elem? r.buf) (index_of-eq-mod k.valid r.tail) ∙ found, v.resolved)
            (elim (Bool-cases (permits (at head) r.tail r.capacity.cap)) [
              | inl room ↦ rw room refl
              | inr full ↦ rw full refl
            ]),
        own,
        shared_,
      )

  pub claim_loop-room :
      {log : ℕ → Option A} (spurious : ℕ) (p : Producer) (r : RingBuffer A) (head : ℕ)
      → Logged log r
      → Cached p r head
      → permits (at head) r.tail r.capacity.cap ≡ true
      → (c : FloorCache) × (s : SharedFloor) × (claim_loop spurious r.tail p r
          ≡ some (
            some r.tail,
            record p { floor_cache = c },
            record r { min_head_cache = s; tail = add_usize r.tail 1 },
          ))
        × (c.private_ ≤ head)
        × (s.head ≤ head)
  unfolding claim_loop swap_tail consumer_floor
  claim_loop-room zero p r head k cache room =
      let (c, s, e, own, shared_) = may_claim-permits p r head k cache in
      (c, s, rw (e, (==_iff r.tail r.tail).1 refl, room) refl, own, shared_)
  claim_loop-room {log} (suc spurious) p r head k cache room =
      let (c, s, e, own, shared_) = may_claim-permits p r head k cache in
      let (c', s', e', own', shared') =
        claim_loop-room {log = log} spurious (record p { floor_cache = c })
          (record r { min_head_cache = s }) head
          (record { valid = k.valid; small = k.small; slots = k.slots; unreached = k.unreached })
          (record { own = own; shared_ = shared_; scan = cache.scan }) room in
      (c', s', rw (e, room) e', own', shared')

  pub claim_loop-full :
      {log : ℕ → Option A} (spurious : ℕ) (p : Producer) (r : RingBuffer A) (head : ℕ)
      → Logged log r
      → Cached p r head
      → permits (at head) r.tail r.capacity.cap ≡ false
      → (c : FloorCache) × (s : SharedFloor) × (claim_loop spurious r.tail p r
          ≡ some (none, record p { floor_cache = c }, record r { min_head_cache = s }))
        × (c.private_ ≤ head)
        × (s.head ≤ head)
  unfolding claim_loop
  claim_loop-full zero p r head k cache full =
      let (c, s, e, own, shared_) = may_claim-permits p r head k cache in
      (c, s, rw (e, full) refl, own, shared_)
  claim_loop-full (suc spurious) p r head k cache full =
      let (c, s, e, own, shared_) = may_claim-permits p r head k cache in
      (c, s, rw (e, full) refl, own, shared_)
