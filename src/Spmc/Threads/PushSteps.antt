-- ===== src/Spmc/Threads/PushSteps.antt =====
-- Each step of the producer of an spmc ring keeps what holds of the ring.
use native.Mathlib.Nat.{mod-lt}
use native.Mathlib.Decide.{dec_lt}
use quetzalcoatl.Common.{
  ℕ, suc, ◌%◌, ◌≤◌, ◌<◌, ◌≡◌, refl, sym, ap, ap₂, subst, ◌∙◌, inl, inr, Bool, true, false, Option,
  none, some, [], ◌∷◌, ◌++◌, arith,
}
use quetzalcoatl.Common.Tests.{◌==◌, if◌then◌else◌, ==_iff, Bool-cases}
use quetzalcoatl.Common.Words.{add_usize}
use quetzalcoatl.Common.Lists.{length, set, length-set, get_elem?-set_self, get_elem?-inside}
use quetzalcoatl.Capacity.Lap.{cap_pos}
use quetzalcoatl.Sync.Cursors
use quetzalcoatl.Sync.CloseState
use quetzalcoatl.Mpsc.Board.{update, update_self, update-ne}
use quetzalcoatl.Spmc.Ring.{wake_consumer, flush_consumers}
use quetzalcoatl.Spmc.Producer.{publish, drop_producer}
use quetzalcoatl.Spmc.Access.{is_free-at, write_slot-at, take_slot-at}
use quetzalcoatl.Spmc.Ledger.{sent, IsForeign, IsOwned, Kept, At, value, published, published-same}
use quetzalcoatl.Spmc.Threads.{
  Pushing, resting, writing, publishing, gone, Threads, push_step, close_step,
}
use quetzalcoatl.Spmc.Threads.Inv.{Free, PushAt, Inv}
use quetzalcoatl.Spmc.Threads.Frame.{
  At-set_value, update_elim, HandleAt-keep, Alike-update, Inv-parks,
}

module _ {ℓ} {A : Type ℓ} where
  pub push_place :
      {n : ℕ} {t : Threads A} {p : Pushing A}
      → Inv n t
      → t.pushing ≡ p
      → PushAt t.ring.storage t.ring.done t.ring.capacity.cap t.ring.cursors.tail p
  push_place {t} k e =
      subst (PushAt t.ring.storage t.ring.done t.ring.capacity.cap t.ring.cursors.tail) e k.pushing

  -- The producer moves without a change of the ring.
  stay-Inv :
      {n : ℕ} (t : Threads A) (p : Pushing A)
      → Inv (suc n) t
      → PushAt t.ring.storage t.ring.done t.ring.capacity.cap t.ring.cursors.tail p
      → Inv n (record t { pushing = p })
  stay-Inv t p k at = record {
    valid = k.valid;
    values = k.values;
    words = k.words;
    small = omega (arith, k.small);
    ordered = k.ordered;
    cursor = k.cursor;
    slots = k.slots;
    ahead = k.ahead;
    waiting = k.waiting;
    behind = k.behind;
    log = k.log;
    pushing = at;
    handles = k.handles;
  }

  claim_step-Inv :
      {n : ℕ} (v : A) (detour : Bool) (t : Threads A)
      → Inv (suc n) t
      → (t' : Threads A) × (push_step resting v detour t ≡ some t') × Inv n t'
  unfolding push_step
  claim_step-Inv v detour t k =
      let pos = t.producer.write_pos in
      let (d, found) =
        get_elem?-inside t.ring.done (pos % t.ring.capacity.cap)
          (rw k.words (mod-lt pos (cap_pos k.valid))) in
      (
        record t { pushing = if d.at == pos then writing pos v else resting },
        rw (is_free-at t.ring pos k.valid found) refl,
        stay-Inv t (if d.at == pos then writing pos v else resting) k
            (elim (Bool-cases (d.at == pos)) [
              | inl free ↦ rw free (
                k.cursor,
                found ∙ ap (λ (n : ℕ). some (record { at = n })) ((==_iff d.at pos).0 free),
                tt,
              )
              | inr held ↦ rw held tt
            ]),
      )

  -- The producer writes or empties the slot of the tail, which it owns.
  slot-Inv :
      {n : ℕ} (t : Threads A) (x : Option A) (p : Pushing A)
      → let m = t.ring.capacity.cap in
        let tail = t.ring.cursors.tail in
        let storage = set t.ring.storage (tail % m) x in
        Inv (suc n) t
        → Free t.ring.done m tail
        → PushAt storage t.ring.done m tail p
        → Inv n (record t { ring = record (t.ring) { storage = storage }; pushing = p })
  slot-Inv t x p k own at = record {
    valid = k.valid;
    values = length-set t.ring.storage _ x ∙ k.values;
    words = k.words;
    small = omega (arith, k.small);
    ordered = k.ordered;
    cursor = k.cursor;
    slots = λ q. elim (dec_lt q t.ring.cursors.tail) [
      | yes below ↦
          At-set_value t.ring.storage t.ring.done t.ring.capacity.cap t.ring.cursors.tail q x
            (t.fate q) own (omega arith) (k.slots q)
      | no above ↦
          subst
            (λ y.
              At (set t.ring.storage (t.ring.cursors.tail % t.ring.capacity.cap) x) t.ring.done
                t.ring.capacity.cap y q)
            (sym (k.ahead q (omega arith))) tt
    ];
    ahead = k.ahead;
    waiting = k.waiting;
    behind = k.behind;
    log = k.log;
    pushing = at;
    handles = k.handles;
  }

  inside :
      {n : ℕ} {t : Threads A} → Inv n t → (p : ℕ) → p % t.ring.capacity.cap < length t.ring.storage
  inside k p = rw k.values (mod-lt p (cap_pos k.valid))

  write_step-Inv :
      {n : ℕ} (w v : A) (t : Threads A)
      → Inv (suc n) t
      → Free t.ring.done t.ring.capacity.cap t.ring.cursors.tail
      → (t' : Threads A) × (push_step (writing t.ring.cursors.tail w) v false t ≡ some t')
        × Inv n t'
  unfolding push_step
  write_step-Inv w v t k own =
      let tail = t.ring.cursors.tail in
      let m = t.ring.capacity.cap in
      let (x, found) = get_elem?-inside t.ring.storage (tail % m) (inside k tail) in
      (
        record t {
          ring = record (t.ring) { storage = set t.ring.storage (tail % m) (some w) };
          pushing = publishing tail w;
        },
        rw (write_slot-at t.ring tail k.valid w found) refl,
        slot-Inv t (some w) (publishing tail w) k own (
          refl,
          record {
            word_at = own;
            value_at = get_elem?-set_self t.ring.storage (tail % m) (some w) (inside k tail);
          },
        ),
      )

  discard_step-Inv :
      {n : ℕ} (w v : A) (t : Threads A)
      → Inv (suc n) t
      → Kept t.ring.storage t.ring.done t.ring.capacity.cap t.ring.cursors.tail (some w)
      → (t' : Threads A) × (push_step (publishing t.ring.cursors.tail w) v true t ≡ some t')
        × Inv n t'
  unfolding push_step
  discard_step-Inv w v t k own =
      let tail = t.ring.cursors.tail in
      let m = t.ring.capacity.cap in
      (
        record t {
          ring = record (t.ring) { storage = set t.ring.storage (tail % m) none };
          pushing = resting;
        },
        rw (take_slot-at t.ring tail k.valid (own.value_at)) refl,
        slot-Inv t none resting k (own.word_at) tt,
      )

  -- The tail moves past a written slot.
  published-Inv :
      {n : ℕ} (w : A) (t : Threads A) (next : ℕ)
      → Inv (suc n) t
      → Kept t.ring.storage t.ring.done t.ring.capacity.cap t.ring.cursors.tail (some w)
      → next ≡ suc t.ring.cursors.tail
      → Inv n (record t {
        ring = record (t.ring) { cursors = record (t.ring.cursors) { tail = next } };
        producer = record { write_pos = next };
        pushing = resting;
        fate = update t.fate t.ring.cursors.tail (sent w);
        pushed = t.pushed ++ (w ∷ []);
      })
  published-Inv w t next k own e =
      let tail = t.ring.cursors.tail in
      let free = k.ahead tail (omega arith) in
      record {
        valid = k.valid;
        values = k.values;
        words = k.words;
        small = omega (arith, k.small);
        ordered = omega (arith, k.ordered);
        cursor = refl;
        slots =
            update_elim (λ q x. At t.ring.storage t.ring.done t.ring.capacity.cap x q) t.fate tail
              (sent w) own (λ q ne. k.slots q);
        ahead = λ q from. update-ne t.fate tail q (sent w) (omega arith) ∙ k.ahead q (omega arith);
        waiting = λ q from to.
            update_elim (λ q x. t.ring.cursors.head ≤ q → q < next → (v : A) × (x ≡ sent v)) t.fate
              tail (sent w) (λ from to. (w, refl)) (λ q ne from to. k.waiting q from (omega arith))
              q from to;
        behind = λ q lt.
            subst IsOwned (sym (update-ne t.fate tail q (sent w) (omega (arith, k.ordered))))
              (k.behind q lt);
        log =
            ap₂ (λ a b. a ++ b)
              (k.log
                ∙ sym (
                    published-same t.fate (update t.fate tail (sent w)) tail
                      (λ q lt. ap value (update-ne t.fate tail q (sent w) (omega arith)))))
              (sym (ap value (update_self t.fate tail (sent w))))
            ∙ ap (published (update t.fate tail (sent w))) (sym e);
        pushing = tt;
        handles = λ i.
            HandleAt-keep i (t.handles i) t.fate (update t.fate tail (sent w)) (t.received i) _ _ _
              _ (omega arith) (omega arith)
              (Alike-update i t.fate tail (sent w) (subst (IsForeign i) (sym free) tt) tt)
              (k.handles i);
      }

  publish_step-Inv :
      {n : ℕ} (w v : A) (t : Threads A)
      → Inv (suc n) t
      → Kept t.ring.storage t.ring.done t.ring.capacity.cap t.ring.cursors.tail (some w)
      → (t' : Threads A) × (push_step (publishing t.ring.cursors.tail w) v false t ≡ some t')
        × Inv n t'
  unfolding push_step publish wake_consumer Cursors.publish_tail
  publish_step-Inv w v t k own = (
    _,
    refl,
    Inv-parks _ _ _ _
        (published-Inv w t (add_usize t.ring.cursors.tail 1) k own (omega (arith, k.small))),
  )

  pub push_step-Inv :
      {n : ℕ} (p : Pushing A) (v : A) (detour : Bool) (t : Threads A)
      → t.pushing ≡ p
      → Inv (suc n) t
      → (t' : Threads A) × (push_step p v detour t ≡ some t') × Inv n t'
  unfolding push_step
  push_step-Inv resting v detour t e k = claim_step-Inv v detour t k
  push_step-Inv (writing pos w) v true t e k = (_, refl, stay-Inv t resting k tt)
  push_step-Inv {n} (writing pos w) v false t e k =
      let (same, own, u) = push_place k e in
      subst (λ p. (t' : Threads A) × (push_step (writing p w) v false t ≡ some t') × Inv n t')
        (sym same) (write_step-Inv w v t k (subst (Free t.ring.done t.ring.capacity.cap) same own))
  push_step-Inv {n} (publishing pos w) v true t e k =
      let (same, own) = push_place k e in
      subst (λ p. (t' : Threads A) × (push_step (publishing p w) v true t ≡ some t') × Inv n t')
        (sym same)
        (discard_step-Inv w v t k
          (subst (λ p. Kept t.ring.storage t.ring.done t.ring.capacity.cap p (some w)) same own))
  push_step-Inv {n} (publishing pos w) v false t e k =
      let (same, own) = push_place k e in
      subst (λ p. (t' : Threads A) × (push_step (publishing p w) v false t ≡ some t') × Inv n t')
        (sym same)
        (publish_step-Inv w v t k
          (subst (λ p. Kept t.ring.storage t.ring.done t.ring.capacity.cap p (some w)) same own))
  push_step-Inv gone v detour t e k = (_, refl, stay-Inv t t.pushing k k.pushing)

  pub close_step-Inv :
      {n : ℕ} (p : Pushing A) (t : Threads A)
      → t.pushing ≡ p
      → Inv (suc n) t
      → Inv n (close_step p t)
  unfolding close_step drop_producer flush_consumers CloseState.close
  close_step-Inv resting t e k = record {
    valid = k.valid;
    values = k.values;
    words = k.words;
    small = omega (arith, k.small);
    ordered = k.ordered;
    cursor = k.cursor;
    slots = k.slots;
    ahead = k.ahead;
    waiting = k.waiting;
    behind = k.behind;
    log = k.log;
    pushing = tt;
    handles = k.handles;
  }
  close_step-Inv (writing pos w) t e k = stay-Inv t t.pushing k k.pushing
  close_step-Inv (publishing pos w) t e k = stay-Inv t t.pushing k k.pushing
  close_step-Inv gone t e k = stay-Inv t t.pushing k k.pushing
