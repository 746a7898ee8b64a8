-- ===== src/Broadcast/Push.antt =====
-- A push into a broadcast ring while the other threads stand still.
use native.Mathlib.Decide.{dec_lt}
use quetzalcoatl.Common.{
  ℕ, suc, ◌+◌, ◌-◌, ◌%◌, ◌^◌, ◌≤◌, ◌<◌, ◌≡◌, ◌≢◌, ◌⊎◌, refl, sym, ap, subst, ◌∙◌, inl, inr, Option,
  some, List, [], ◌∷◌, arith, Bool, true, false,
}
use quetzalcoatl.Common.Tests.{Bool-cases}
use quetzalcoatl.Common.Lists.{get_elem?}
use quetzalcoatl.Common.Words.{add_usize}
use quetzalcoatl.Capacity.{IsValid}
use quetzalcoatl.Capacity.Lap.{cap_pos, index_of-eq-mod, mod-ne}
use quetzalcoatl.Slot.State
use quetzalcoatl.Slot.State.{
  SequenceWord, published_word, abandoned_word, decode, holds_value, decode-published,
  decode-abandoned, decode-vacant, is_claim_in_progress,
}
use quetzalcoatl.Spsc.Producer.{ok, err}
use quetzalcoatl.Mpsc.Board.{update, update_self, update-ne}
use quetzalcoatl.Broadcast.Floor.{SharedFloor, at, permits}
use quetzalcoatl.Broadcast.Registry
use quetzalcoatl.Broadcast.Ring.{BroadcastSlot, RingBuffer, Producer, slot, consumer_floor}
use quetzalcoatl.Broadcast.Producer.{claimed, take_over, claim_slot, push}
use quetzalcoatl.Broadcast.Log.{HoldsAt, Logged, SlotOf}
use quetzalcoatl.Broadcast.Claim.{Cached, Vacates, tail_slot, claim_loop-room, claim_loop-full}
use quetzalcoatl.Broadcast.Rewrite.{
  Rewritten, Rewritten-trans, update_slot-Rewritten, Rewritten-found, take_value-Rewritten,
  published-Rewritten,
}

module _ {ℓ} {A : Type ℓ} where
  take_over-Rewritten :
      (needs_drop : Bool) (pos cap tail : ℕ) (r : RingBuffer A) (s : BroadcastSlot A)
      → IsValid r.capacity
      → get_elem? r.buf (pos % r.capacity.cap) ≡ some s
      → Vacates s cap tail
      → (dropped : List A) × (r' : RingBuffer A) × (t : BroadcastSlot A) × (take_over needs_drop
            (λ v. true)
            pos
            r
          ≡ some (claimed pos, dropped, r'))
        × Rewritten pos r r' t
  unfolding take_over slot State.claim_taking_previous
  take_over-Rewritten false pos cap tail r s valid e k =
      let (r', e', m) =
        update_slot-Rewritten (λ s. record s { sequence = State.claim s.sequence }) pos r valid e in
      ([], r', record s { sequence = State.claim s.sequence }, rw e' refl, m)
  take_over-Rewritten true pos cap tail r s valid e k =
      let (r₁, e₁, m₁) =
        update_slot-Rewritten
          (λ x. record x { sequence = (State.claim_taking_previous s.sequence).1 }) pos r valid e in
      let found = ap (get_elem? r.buf) (index_of-eq-mod valid pos) ∙ e in
      elim k.holding [
        | inl nothing ↦ ([], r₁, _, rw (found, e₁, nothing) refl, m₁)
        | inr held ↦
            let (holds, (v, content)) = held in
            let (valid₁, e') = Rewritten-found m₁ valid in
            let (r₂, e₂, m₂) = take_value-Rewritten pos r₁ valid₁ e' content in
            (v ∷ [], r₂, _, rw (found, e₁, holds, e₂) refl, Rewritten-trans m₁ m₂)
      ]

  -- A published slot extends the log.
  extended-Logged :
      (log : ℕ → Option A) (v : A) (r r' : RingBuffer A) (floor : SharedFloor) (next : ℕ)
      {t : BroadcastSlot A}
      → Logged log r
      → next ≡ suc r.tail
      → Rewritten r.tail (record r { min_head_cache = floor; tail = next }) r' t
      → HoldsAt (some v) r.tail t
      → suc r.tail + r.capacity.cap < 2 ^ 63 - 1
      → Logged (update log r.tail (some v)) r'
  extended-Logged log v r r' floor next {t} k up m written small =
      let cap = r.capacity.cap in
      let tail = r.tail in
      subst (Logged (update log tail (some v))) (sym m.rest) (record {
        valid = k.valid;
        small = omega (arith, up, small);
        slots = λ p below near. elim (dec_lt p tail) [
          | yes old ↦
              let o = k.slots p old (omega arith) in
              record {
                here = o.here;
                found =
                    m.others (p % cap) (mod-ne cap p tail (cap_pos k.valid) old (omega arith))
                    ∙ o.found;
                holds =
                    subst (λ x. HoldsAt x p o.here)
                      (sym (update-ne log tail p (some v) (omega arith))) o.holds;
              }
          | no last ↦
              let same : tail ≡ p = omega arith in
              subst (λ p. SlotOf r'.buf cap p (update log tail (some v) p)) same
                (record {
                  here = t;
                  found = m.here;
                  holds =
                      subst (λ x. HoldsAt x tail t) (sym (update_self log tail (some v))) written;
                })
        ];
        unreached = λ p from first.
            let (s, e, word) = k.unreached p (omega arith) first in
            let ne : tail % cap ≢ p % cap =
              mod-ne cap tail p (cap_pos k.valid) (omega arith) (omega arith) in
            (s, m.others (p % cap) (λ same. ne (sym same)) ∙ e, word);
      })

  -- On a ring that holds what `log` says, with the floor `head` that no cache is ahead of, a push whose
  -- destructors return is defined, however often the weak compare-and-swap fails: where fewer positions
  -- than the ring has slots lie between the floor and the tail it publishes its value at the tail, and
  -- otherwise it hands the value back, and the log and the tail stay. No seat changes, and no cache is
  -- ahead of the floor afterwards. Positions stay below half of `usize`.
  pub push-Logged :
      (log : ℕ → Option A) (needs_drop : Bool) (spurious : ℕ) (v : A) (p : Producer)
      (r : RingBuffer A) (head : ℕ)
      → Logged log r
      → Cached p r head
      → head ≤ r.tail
      → suc r.tail + r.capacity.cap < 2 ^ 63 - 1
      → (dropped : List A) × (p' : Producer) × (r' : RingBuffer A) × (((r.tail
              < head + r.capacity.cap)
            × (push needs_drop (λ v. true) spurious v p r ≡ some (some ok, dropped, p', r'))
            × (r'.tail ≡ suc r.tail)
            × Logged (update log r.tail (some v)) r')
          ⊎ ((head + r.capacity.cap ≤ r.tail)
              × (push needs_drop (λ v. true) spurious v p r ≡ some (some (err v), dropped, p', r'))
              × (r'.tail ≡ r.tail)
              × Logged log r'))
        × (r'.consumers ≡ r.consumers)
        × Cached p' r' head
  unfolding push claim_slot permits consumer_floor
  push-Logged log needs_drop spurious v p r head k cache low small =
      elim (Bool-cases (permits (at head) r.tail r.capacity.cap)) [
        | inl room ↦
            let (c, s, e, own, shared_) = claim_loop-room spurious p r head k cache room in
            let (t, found, vacates) = tail_slot k in
            let up : add_usize r.tail 1 ≡ suc r.tail = omega arith in
            let (dropped, r₂, t₂, e₂, m₂) =
              take_over-Rewritten needs_drop r.tail r.capacity.cap r.tail
                (record r { min_head_cache = s; tail = add_usize r.tail 1 }) t k.valid found
                vacates in
            let (valid₂, found₂) = Rewritten-found m₂ k.valid in
            let (r₃, r₄, t₄, e₃, e₄, m₄, holds) = published-Rewritten v r.tail r₂ valid₂ found₂ in
            let m = Rewritten-trans m₂ m₄ in
            let seats : r₄.consumers ≡ r.consumers =
              ap (λ (x : RingBuffer A). x.consumers) m.rest in
            (
              dropped,
              record p { floor_cache = c },
              r₄,
              inl (
                ground (arith, cap_pos k.valid),
                rw (e, e₂, e₃, e₄) refl,
                ap (λ (x : RingBuffer A). x.tail) m.rest ∙ up,
                extended-Logged log v r r₄ s (add_usize r.tail 1) k up m holds small,
              ),
              seats,
              record {
                own = own;
                shared_ =
                    subst (λ (x : RingBuffer A). x.min_head_cache.head ≤ head) (sym m.rest) shared_;
                scan = ap Registry.floor seats ∙ cache.scan;
              },
            )
        | inr full ↦
            let (c, s, e, own, shared_) = claim_loop-full spurious p r head k cache full in
            (
              [],
              record p { floor_cache = c },
              record r { min_head_cache = s },
              inr (
                ground arith,
                rw e refl,
                refl,
                record {
                  valid = k.valid;
                  small = k.small;
                  slots = k.slots;
                  unreached = k.unreached;
                },
              ),
              refl,
              record { own = own; shared_ = shared_; scan = cache.scan },
            )
      ]
