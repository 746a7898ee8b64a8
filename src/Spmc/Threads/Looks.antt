-- ===== src/Spmc/Threads/Looks.antt =====
-- The steps of a consumer handle of an spmc ring up to the claim of a batch keep what holds of the ring.
use quetzalcoatl.Common.{
  ℕ, suc, ◌^◌, ◌≤◌, ◌<◌, ◌≡◌, refl, sym, ap, subst, ◌∙◌, inl, inr, Bool, some, List, arith,
}
use quetzalcoatl.Common.Tests.{leb, ltb, Bool-cases}
use quetzalcoatl.Common.Words.{add_usize}
use quetzalcoatl.Spmc.Consumer.{batch_after, step_batch, see_tail}
use quetzalcoatl.Spmc.Ledger.{Fate, reads}
use quetzalcoatl.Spmc.Threads.{
  Popping, idle, heading, comparing, closing, swapping, reading, Handle, Threads, put, move, looked,
  pop_step,
}
use quetzalcoatl.Spmc.Threads.Inv.{progress, PopAt, HandleAt, Inv}
use quetzalcoatl.Spmc.Threads.Frame.{put-HandleAt}

-- A batch holds at least one position, and ends at or before the tail.
pub batch_after-bounds :
    (head tail : ℕ)
    → head < tail
    → tail < 2 ^ 63
    → (head < batch_after head tail) × (batch_after head tail ≤ tail)
batch_after-bounds head tail lt small = (ground arith, ground arith)

module _ {ℓ} {A : Type ℓ} where
  pub pop_place :
      {n : ℕ} {t : Threads A} (k : Inv n t) (i : ℕ) {p : Popping}
      → (t.handles i).place ≡ p
      → PopAt i p (t.handles i).consumer t.fate
  pop_place {t} k i e = subst (λ p. PopAt i p (t.handles i).consumer t.fate) e (k.handles i).at

  -- A handle moves without a change of the ring.
  pub put-Inv :
      {n : ℕ} (i : ℕ) (h : Handle) (t : Threads A)
      → Inv (suc n) t
      → HandleAt i h t.fate (t.received i) t.ring.cursors.head t.ring.cursors.tail
      → Inv n (put i h t)
  unfolding put
  put-Inv i h t k mine = record {
    valid = k.valid;
    values = k.values;
    words = k.words;
    small = omega (arith, k.small);
    ordered = k.ordered;
    cursor = k.cursor;
    slots = k.slots;
    ahead = k.ahead;
    waiting = k.waiting;
    behind = k.behind;
    log = k.log;
    pushing = k.pushing;
    handles =
        put-HandleAt t.handles i h t.fate t.fate t.received t.received _ _ _ _ k.handles mine
          (omega arith) (omega arith) (λ j ne. (refl, λ p. inl refl));
  }

  -- A handle that is not at a claimed position goes to another such place, with the tail that it has seen.
  reseat :
      (i : ℕ) (h : Handle) (f : ℕ → Fate A) (out : List A) (head tail seen : ℕ) (place : Popping)
      → let c = record (h.consumer) { cached_tail = seen } in
        HandleAt i h f out head tail
        → seen ≤ tail
        → progress h.place h.consumer ≡ h.consumer.batch_next
        → progress place c ≡ h.consumer.batch_next
        → PopAt i place c f
        → HandleAt i (record { consumer = c; place = place }) f out head tail
  reseat i h f out head tail seen place k old e e' at = record {
    old = old;
    batch = k.batch;
    behind = k.behind;
    mine = k.mine;
    at = at;
    got = k.got ∙ ap (reads i f) (e ∙ sym e');
    rest = λ p from. k.rest p (omega (arith, from, e, e'));
  }

  -- A handle goes to another place where it holds no position.
  pub move-Inv :
      {n : ℕ} (i : ℕ) (place : Popping) (t : Threads A)
      → let c = (t.handles i).consumer in
        Inv (suc n) t
        → progress (t.handles i).place c ≡ c.batch_next
        → progress place c ≡ c.batch_next
        → PopAt i place c t.fate
        → Inv n (move i place t)
  unfolding move
  move-Inv i place t k e e' at =
      put-Inv i (record (t.handles i) { place = place }) t k
        (reseat i (t.handles i) t.fate (t.received i) _ _ _ place (k.handles i) (k.handles i).old e
          e' at)

  pub look-Inv :
      {n : ℕ} (i : ℕ) (place : Popping) (t : Threads A)
      → let c = see_tail (t.handles i).consumer t.ring in
        Inv (suc n) t
        → progress (t.handles i).place (t.handles i).consumer ≡ (t.handles i).consumer.batch_next
        → progress place c ≡ c.batch_next
        → PopAt i place c t.fate
        → Inv n (put i (record { consumer = c; place = place }) t)
  look-Inv i place t k e e' at =
      put-Inv i (record { consumer = see_tail (t.handles i).consumer t.ring; place = place }) t k
        (reseat i (t.handles i) t.fate (t.received i) _ _ _ place (k.handles i) (omega arith) e e'
          at)

  -- The next position of the batch.
  pub stepped-HandleAt :
      (i : ℕ) (h : Handle) (f : ℕ → Fate A) (out : List A) (head tail next : ℕ)
      → let c = h.consumer in
        HandleAt i h f out head tail
        → progress h.place c ≡ c.batch_next
        → c.batch_next < c.batch_end
        → next ≡ suc c.batch_next
        → HandleAt i
            (record { consumer = record c { batch_next = next }; place = reading c.batch_next })
            f
            out
            head
            tail
  stepped-HandleAt i h f out head tail next k e lt up = record {
    old = k.old;
    batch = omega arith;
    behind = k.behind;
    mine = λ p from to. k.mine p (omega arith) to;
    at = (sym up, k.mine h.consumer.batch_next (omega arith) lt);
    got = k.got ∙ ap (reads i f) e;
    rest = λ p from. k.rest p (omega (arith, e, from));
  }

  -- At a place where the handle holds no position, its progress is its batch.
  pub calm :
      (i : ℕ) (t : Threads A) {p : Popping}
      → let c = (t.handles i).consumer in
        (t.handles i).place ≡ p
        → progress p c ≡ c.batch_next
        → progress (t.handles i).place c ≡ c.batch_next
  calm i t e calm_ = ap (λ p. progress p (t.handles i).consumer) e ∙ calm_

  pub idle_step-Inv :
      {n : ℕ} (i : ℕ) (spurious : Bool) (t : Threads A)
      → (t.handles i).place ≡ idle
      → Inv (suc n) t
      → (t' : Threads A) × (pop_step i idle spurious t ≡ some t') × Inv n t'
  unfolding pop_step
  idle_step-Inv i spurious t e k =
      let c = (t.handles i).consumer in
      elim (Bool-cases (ltb c.batch_next c.batch_end)) [
        | inl more ↦
            let lt : c.batch_next < c.batch_end = ground arith in
            (
              put i (record { consumer = step_batch c; place = reading c.batch_next }) t,
              rw more refl,
              put-Inv i (record { consumer = step_batch c; place = reading c.batch_next }) t k
                  (stepped-HandleAt i (t.handles i) t.fate (t.received i) _ _
                    (add_usize c.batch_next 1) (k.handles i) (calm i t e refl) lt
                    (omega (arith, lt, k.small, k.ordered, (k.handles i).behind))),
            )
        | inr over ↦
            (move i heading t, rw over refl, move-Inv i heading t k (calm i t e refl) refl tt)
      ]

  pub compare_step-Inv :
      {n : ℕ} (i h : ℕ) (spurious : Bool) (t : Threads A)
      → (t.handles i).place ≡ comparing h
      → Inv (suc n) t
      → (t' : Threads A) × (pop_step i (comparing h) spurious t ≡ some t') × Inv n t'
  unfolding pop_step
  compare_step-Inv i h spurious t e k =
      let c = (t.handles i).consumer in
      elim (Bool-cases (ltb h c.cached_tail)) [
        | inl seen ↦
            let lt : h < c.cached_tail = ground arith in
            (
              move i (swapping h) t,
              rw seen refl,
              move-Inv i (swapping h) t k (calm i t e refl) refl (lt, tt),
            )
        | inr old ↦ (
          put i (looked (see_tail c t.ring) h) t,
          rw old refl,
          elim (Bool-cases (leb t.ring.cursors.tail h)) [
            | inl none_ ↦ rw none_ (look-Inv i closing t k (calm i t e refl) refl tt)
            | inr more ↦
                let lt : h < t.ring.cursors.tail = ground arith in
                rw more (look-Inv i (swapping h) t k (calm i t e refl) refl (lt, tt))
          ],
        )
      ]
