-- ===== src/Broadcast/Rewrite.antt =====
-- Changes of the slot of one position of a broadcast ring.
use quetzalcoatl.Common.{ℕ, ◌%◌, ◌≡◌, ◌≢◌, refl, sym, ap, subst, ◌∙◌, none, some}
use quetzalcoatl.Common.Lists.{get_elem?, set, get_elem?-set_self, get_elem?-set_ne, get_elem?-lt}
use quetzalcoatl.Capacity.{IsValid}
use quetzalcoatl.Capacity.Lap.{index_of-eq-mod}
use quetzalcoatl.Slot.State
use quetzalcoatl.Slot.State.{
  SequenceWord, published_word, abandoned_word, decode, holds_value, decode-published,
  decode-abandoned, decode-vacant, is_claim_in_progress,
}
use quetzalcoatl.Broadcast.Ring.{BroadcastSlot, RingBuffer, slot, update_slot, take_value}
use quetzalcoatl.Broadcast.Producer.{write_slot, publish}
use quetzalcoatl.Broadcast.Log.{HoldsAt}

module _ {ℓ} {A : Type ℓ} where
  -- A change of the slot of one position.
  pub record Rewritten (pos : ℕ) (r r' : RingBuffer A) (s : BroadcastSlot A) : Type ℓ where
    pub rest : r' ≡ record r { buf = r'.buf }
    pub here : get_elem? r'.buf (pos % r.capacity.cap) ≡ some s
    pub others : (i : ℕ) → i ≢ pos % r.capacity.cap → get_elem? r'.buf i ≡ get_elem? r.buf i

  pub Rewritten-trans :
      {pos : ℕ} {r r₁ r₂ : RingBuffer A} {s t : BroadcastSlot A}
      → Rewritten pos r r₁ s
      → Rewritten pos r₁ r₂ t
      → Rewritten pos r r₂ t
  Rewritten-trans {pos} {r} {r₁} {r₂} {t = t} m n =
      let cap : r₁.capacity.cap ≡ r.capacity.cap =
        ap (λ (x : RingBuffer A). x.capacity.cap) m.rest in
      record {
        rest = n.rest ∙ ap (λ (x : RingBuffer A). record x { buf = r₂.buf }) m.rest;
        here = subst (λ c. get_elem? r₂.buf (pos % c) ≡ some t) cap n.here;
        others = λ i ne. n.others i (subst (λ c. i ≢ pos % c) (sym cap) ne) ∙ m.others i ne;
      }

  pub update_slot-Rewritten :
      (f : BroadcastSlot A → BroadcastSlot A) (pos : ℕ) (r : RingBuffer A) {s : BroadcastSlot A}
      → IsValid r.capacity
      → get_elem? r.buf (pos % r.capacity.cap) ≡ some s
      → (r' : RingBuffer A) × (update_slot pos f r ≡ some r') × Rewritten pos r r' (f s)
  unfolding update_slot slot
  update_slot-Rewritten f pos r {s} v e =
      let index = index_of-eq-mod v pos in
      let i = pos % r.capacity.cap in
      (
        record r { buf = set r.buf i (f s) },
        rw (ap (get_elem? r.buf) index ∙ e)
            (ap (λ i. some (record r { buf = set r.buf i (f s) })) index),
        record {
          rest = refl;
          here = get_elem?-set_self r.buf i (f s) (get_elem?-lt r.buf i e);
          others = λ j ne. get_elem?-set_ne r.buf (f s) (λ same. ne (sym same));
        },
      )

  pub Rewritten-found :
      {pos : ℕ} {r r' : RingBuffer A} {s : BroadcastSlot A}
      → Rewritten pos r r' s
      → IsValid r.capacity
      → (IsValid r'.capacity) × (get_elem? r'.buf (pos % r'.capacity.cap) ≡ some s)
  Rewritten-found {pos} {r} {r'} {s} m v = (
    subst (λ (x : RingBuffer A). IsValid x.capacity) (sym m.rest) v,
    subst (λ c. get_elem? r'.buf (pos % c) ≡ some s)
        (sym (ap (λ (x : RingBuffer A). x.capacity.cap) m.rest)) m.here,
  )

  pub take_value-Rewritten :
      (pos : ℕ) (r : RingBuffer A) {s : BroadcastSlot A} {v : A}
      → IsValid r.capacity
      → get_elem? r.buf (pos % r.capacity.cap) ≡ some s
      → s.data_ ≡ some v
      → (r' : RingBuffer A) × (take_value pos r ≡ some (v, r'))
        × Rewritten pos r r' (record s { data_ = none })
  unfolding take_value slot
  take_value-Rewritten pos r valid e held =
      let (r', e', m) = update_slot-Rewritten (λ s. record s { data_ = none }) pos r valid e in
      (r', rw (ap (get_elem? r.buf) (index_of-eq-mod valid pos) ∙ e, held, e') refl, m)

  -- The write of a claimed position, and its publication.
  pub published-Rewritten :
      (v : A) (pos : ℕ) (r : RingBuffer A) {t : BroadcastSlot A}
      → IsValid r.capacity
      → get_elem? r.buf (pos % r.capacity.cap) ≡ some t
      → (r₁ : RingBuffer A) × (r₂ : RingBuffer A) × (s : BroadcastSlot A) × (write_slot pos v r
          ≡ some r₁)
        × (publish pos r₁ ≡ some r₂)
        × Rewritten pos r r₂ s
        × HoldsAt (some v) pos s
  unfolding write_slot publish State.publish
  published-Rewritten v pos r valid e =
      let (r₁, e₁, m₁) = update_slot-Rewritten (λ s. record s { data_ = some v }) pos r valid e in
      let (valid₁, found₁) = Rewritten-found m₁ valid in
      let (r₂, e₂, m₂) =
        update_slot-Rewritten (λ s. record s { sequence = State.publish pos s.sequence }) pos r₁
          valid₁ found₁ in
      (r₁, r₂, _, e₁, e₂, Rewritten-trans m₁ m₂, (refl, refl))
