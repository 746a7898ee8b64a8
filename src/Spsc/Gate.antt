-- ===== src/Spsc/Gate.antt =====
-- The observers of the spsc ring, and the gates that the blocking calls test before they claim.
use quetzalcoatl.Common.{
  ℕ, ◌≡◌, refl, sym, ap, ap₂, subst, ◌∙◌, Bool, true, false, not, inl, inr, Option, none, some,
  List, [], ◌∷◌, arith,
}
use quetzalcoatl.Common.Tests.{ltb, leb, ◌==◌, if◌then◌else◌, Bool-cases, ltb→lt}
use quetzalcoatl.Common.Lists.{length}
use quetzalcoatl.Common.Words.{sub_usize}
use quetzalcoatl.Capacity
use quetzalcoatl.Capacity.Lap.{cap-le}
use quetzalcoatl.Sync.Cursors
use quetzalcoatl.Spsc.Ring.{Spsc, len, is_empty, is_full}
use quetzalcoatl.Spsc.Producer.{SlotWriter, set_cached_head, try_claim, has_space, reserve}
use quetzalcoatl.Spsc.Consumer.{SlotReader, available, ready_for_claim, pop_ref}
use quetzalcoatl.Spsc.Repr.{Repr}
use quetzalcoatl.Spsc.Claim.{try_claim-ring}
use quetzalcoatl.Spsc.Push.{try_claim-Claimed, try_claim-full}
use quetzalcoatl.Spsc.Pop.{
  Repr-Draining, Draining-Repr, available-ring, available-empty, available-some, available-Draining,
}
use quetzalcoatl.Spsc.Reserve.{Reserved, reserve_lem}
use quetzalcoatl.Spsc.Reader.{pop_ref_lem}

full-test : (d m : ℕ) → leb m d ≡ not (ltb d m)
full-test d m = ground arith

module _ {ℓ} {A : Type ℓ} where
  -- The observers agree with the queue: its length, whether it is empty, and whether it is at capacity.
  len_lem :
      {s : Spsc A} {q : List A}
      → Repr s q
      → (len s.ring ≡ length q)
        × (is_empty s.ring ≡ (length q == 0))
        × (is_full s.ring ≡ (length q == s.ring.capacity.cap))
  unfolding len is_empty is_full Cursors.len Cursors.is_empty Cursors.is_full Capacity.get
  len_lem {s} {q} r = (gap, ap (λ n. n == 0) gap, ap (λ n. n == s.ring.capacity.cap) gap)
    where
      gap : sub_usize s.ring.cursors.tail s.ring.cursors.head ≡ length q
      gap = omega (arith, r.items.tail_at, r.items.head_at, r.items.fits, cap-le r.items.valid)

  has_space-answer :
      (s : Spsc A) {q : List A} → Repr s q → (has_space s).0 ≡ ltb (length q) s.ring.capacity.cap
  unfolding has_space set_cached_head Capacity.get
  has_space-answer s r = ground (arith, cap-le r.items.valid)

  refuse-or-grant :
      (b : Bool) (pos : ℕ) (s : Spsc A)
      → let out : Option ℕ × Spsc A = if b then (none, s) else (some pos, s) in out.1 ≡ s
  refuse-or-grant true pos s = refl
  refuse-or-grant false pos s = refl

  -- Gate and claim cache the same head.
  has_space-cells : (s : Spsc A) → (has_space s).1 ≡ (try_claim s).1
  unfolding has_space try_claim Capacity.get
  has_space-cells s =
      elim (Bool-cases
        (ltb (sub_usize s.producer.write_pos s.producer.cached_head) s.ring.capacity.cap)) [
          | inl room ↦
              rw
                (
                  full-test (sub_usize s.producer.write_pos s.producer.cached_head)
                      s.ring.capacity.cap,
                  room,
                )
                refl
          | inr stale ↦
              rw
                (
                  full-test (sub_usize s.producer.write_pos s.producer.cached_head)
                      s.ring.capacity.cap,
                  stale,
                )
                (sym (refuse-or-grant _ _ _))
        ]

  -- The gate of the blocking reservation answers whether the queue is below capacity, and the ring holds
  -- the queue still.
  has_space_lem :
      {s : Spsc A} {q : List A}
      → Repr s q
      → (s' : Spsc A) × (has_space s ≡ (ltb (length q) s.ring.capacity.cap, s')) × Repr s' q
  has_space_lem {s} {q} r = (
    (try_claim s).1,
    ap₂ (λ (b : Bool) (t : Spsc A). (b, t)) (has_space-answer s r) (has_space-cells s),
    elim (Bool-cases (ltb (length q) s.ring.capacity.cap)) [
      | inl room ↦ (try_claim-Claimed s q r (ltb→lt _ _ room)).1.repr
      | inr full ↦ (try_claim-full s q r (ground (arith, r.items.fits))).1
    ],
  )

  -- When the gate of the blocking reservation lets the producer pass, the reservation that follows is
  -- granted a slot.
  has_space_gate :
      {s s' : Spsc A} {q : List A}
      → Repr s q
      → has_space s ≡ (true, s')
      → (w : SlotWriter) × (t : Spsc A) × (reserve s' ≡ (some w, t)) × Reserved w t q
  has_space_gate {s} {s'} {q} r e =
      let room : ltb (length q) s.ring.capacity.cap ≡ true =
        cc (has_space-answer s r, ap (λ (a : Bool × Spsc A). a.0) e) in
      let same : (try_claim s).1 ≡ s' = cc (has_space-cells s, ap (λ (a : Bool × Spsc A). a.1) e) in
      subst
        (λ (t' : Spsc A).
          (w : SlotWriter) × (t : Spsc A) × (reserve t' ≡ (some w, t)) × Reserved w t q)
        same
        ((reserve_lem (try_claim-Claimed s q r (ltb→lt _ _ room)).1.repr).0
          (rw try_claim-ring (ltb→lt _ _ room)))

  ready-answer :
      {s : Spsc A} (q : List A) → Repr s q → (available s.ring.cursors.head s).0 ≡ ltb 0 (length q)
  ready-answer {s} [] r =
      ap (λ h. (available h s).0) r.items.head_at ∙ available-empty (Repr-Draining r)
  ready-answer {s} (v ∷ q) r =
      ap (λ h. (available h s).0) r.items.head_at ∙ available-some (Repr-Draining r) ∙ ground arith

  -- The gate of the blocking read answers whether the queue has items, and the ring holds it still.
  ready_for_claim_lem :
      {s : Spsc A} {q : List A}
      → Repr s q
      → (s' : Spsc A) × (ready_for_claim s ≡ (ltb 0 (length q), s')) × Repr s' q
  unfolding ready_for_claim
  ready_for_claim_lem {s} {q} r = (
    (available s.ring.cursors.head s).1,
    ap₂ (λ (b : Bool) (t : Spsc A). (b, t)) (ready-answer q r) refl,
    subst (λ h. Repr (available h s).1 q) (sym r.items.head_at)
        (Draining-Repr (available-Draining (Repr-Draining r)) (rw available-ring r.items.head_at)),
  )

  -- When the gate of the blocking read lets the consumer pass, the read that follows lends an item, and
  -- the ring holds what it held.
  ready_for_claim_gate :
      {s s' : Spsc A} {q : List A}
      → Repr s q
      → ready_for_claim s ≡ (true, s')
      → (reader : SlotReader) × (t : Spsc A) × (pop_ref s' ≡ (some reader, t)) × Repr t q
  ready_for_claim_gate {s} {s'} {q = []} r e =
      let (t, answer, left) = ready_for_claim_lem r in
      absurd (omega (arith, ltb→lt 0 0 (ap (λ (a : Bool × Spsc A). a.0) (sym answer ∙ e))))
  ready_for_claim_gate {s} {s'} {q = v ∷ q} r e =
      let (t, answer, left) = ready_for_claim_lem r in
      let (reader, t', lends, held, dropped) =
        pop_ref_lem
          (subst (λ t. Repr t (v ∷ q)) (ap (λ (a : Bool × Spsc A). a.1) (sym answer ∙ e)) left) in
      (reader, t', lends, held)
