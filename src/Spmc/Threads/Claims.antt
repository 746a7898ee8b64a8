-- ===== src/Spmc/Threads/Claims.antt =====
-- The claim of a batch by a consumer handle of an spmc ring keeps what holds of the ring.
use quetzalcoatl.Common.{
  ℕ, suc, ◌+◌, ◌-◌, ◌^◌, ◌≤◌, ◌<◌, ◌≡◌, refl, sym, ap, subst, ◌∙◌, inl, inr, false, some, List, [],
  arith,
}
use quetzalcoatl.Common.Tests.{◌==◌, ==_iff, Bool-cases}
use quetzalcoatl.Common.Words.{add_usize}
use quetzalcoatl.Sync.Cursors
use quetzalcoatl.Spmc.Consumer.{batch_after, swap_head}
use quetzalcoatl.Spmc.Ledger.{
  Fate, sent, claimed, read_by, reads, reads-same, reads-skip, IsForeign, IsOwned, At, claim,
  claim_range, claim_range-inside, claim_range-outside, claim_range_elim, value, published-same,
}
use quetzalcoatl.Spmc.Threads.{
  heading, swapping, reading, Handle, Threads, put, move, swapped, pop_step,
}
use quetzalcoatl.Spmc.Threads.Inv.{progress, HandleAt, Inv}
use quetzalcoatl.Spmc.Threads.Frame.{Alike, put-HandleAt}
use quetzalcoatl.Spmc.Threads.Looks.{batch_after-bounds, pop_place, move-Inv}

module _ {ℓ} {A : Type ℓ} where
  -- The handle that claims the positions from `head` to below `last`.
  claimed-HandleAt :
      (i : ℕ) (h : Handle) (f : ℕ → Fate A) (out : List A) (head tail next last : ℕ)
      → let c = h.consumer in
        HandleAt i h f out head tail
        → progress h.place c ≡ c.batch_next
        → next ≡ suc head
        → head < last
        → ((p : ℕ) → head ≤ p → p < last → (v : A) × (f p ≡ sent v))
        → HandleAt i
            (record {
              consumer = record c { batch_next = next; batch_end = last };
              place = reading head;
            })
            (claim_range i head last f)
            out
            last
            tail
  claimed-HandleAt i h f out head tail next last k e up lt published =
      let own : (p : ℕ)
          → head ≤ p
          → p < last
          → (v : A) × (claim_range i head last f p ≡ claimed i v) =
        λ p from to.
          let (v, s) = published p from to in
          (v, claim_range-inside i head last f p from to ∙ ap (claim i) s) in
      let reached : h.consumer.batch_next + (head - h.consumer.batch_next) ≡ head =
        omega (arith, k.batch, k.behind) in
      record {
        old = k.old;
        batch = omega arith;
        behind = omega arith;
        mine = λ p from to. own p (omega arith) to;
        at = (sym up, own head (omega arith) lt);
        got =
            k.got
            ∙ ap (reads i f) e
            ∙ sym (
                reads-skip i f h.consumer.batch_next (head - h.consumer.batch_next)
                  (λ p from. k.rest p (omega (arith, e, from))))
            ∙ ap (reads i f) reached
            ∙ sym (
                reads-same i f (claim_range i head last f) head
                  (λ p below. ap (read_by i) (claim_range-outside i head last f p (inl below))));
        rest = λ p from.
            claim_range_elim (λ p x. head ≤ p → read_by i x ≡ []) i head last f published
              (λ p v low high s from. refl)
              (λ p out from. k.rest p (omega (arith, e, from, k.batch, k.behind))) p from;
      }

  claimed-Inv :
      {n : ℕ} (i : ℕ) (t : Threads A) (next last : ℕ)
      → let head = t.ring.cursors.head in
        let c = (t.handles i).consumer in
        Inv (suc n) t
        → progress (t.handles i).place c ≡ c.batch_next
        → next ≡ suc head
        → head < last
        → last ≤ t.ring.cursors.tail
        → Inv n (
            put i
              (record {
                consumer = record c { batch_next = next; batch_end = last };
                place = reading head;
              })
              (record t {
                ring = record (t.ring) { cursors = record (t.ring.cursors) { head = last } };
                fate = claim_range i head last t.fate;
              }))
  unfolding put
  claimed-Inv i t next last k e up lt le =
      let head = t.ring.cursors.head in
      let m = t.ring.capacity.cap in
      let published : (p : ℕ) → head ≤ p → p < last → (v : A) × (t.fate p ≡ sent v) =
        λ p from to. k.waiting p from (omega arith) in
      record {
        valid = k.valid;
        values = k.values;
        words = k.words;
        small = omega (arith, k.small);
        ordered = le;
        cursor = k.cursor;
        slots =
            claim_range_elim (λ p x. At t.ring.storage t.ring.done m x p) i head last t.fate
              published
              (λ p v low high s. subst (λ x. At t.ring.storage t.ring.done m x p) s (k.slots p))
              (λ p out. k.slots p);
        ahead =
            λ p from. claim_range-outside i head last t.fate p (inr (omega arith)) ∙ k.ahead p from;
        waiting = λ p from to.
            let (v, s) = k.waiting p (omega arith) to in
            (v, claim_range-outside i head last t.fate p (inr from) ∙ s);
        behind =
            claim_range_elim (λ p x. p < last → IsOwned x) i head last t.fate published
              (λ p v low high s below. tt) (λ p out below. k.behind p (omega (arith, out, below)));
        log =
            k.log
            ∙ sym (
                published-same t.fate (claim_range i head last t.fate) t.ring.cursors.tail (λ p lt.
                  claim_range_elim (λ p x. value x ≡ value (t.fate p)) i head last t.fate published
                    (λ p v low high s. ap value (sym s)) (λ p out. refl) p));
        pushing = k.pushing;
        handles =
            put-HandleAt t.handles i _ t.fate (claim_range i head last t.fate) t.received t.received
              _ _ _ _ k.handles
              (claimed-HandleAt i (t.handles i) t.fate (t.received i) head t.ring.cursors.tail next
                last (k.handles i) e up lt published)
              (omega arith) (omega arith)
              (λ j ne. (
                refl,
                claim_range_elim (λ p x. Alike j (t.fate p) x) i head last t.fate published
                    (λ p v low high s. inr (subst (IsForeign j) (sym s) tt, λ same. ne (sym same)))
                    (λ p out. inl refl),
              ));
      }

  -- The compare-and-swap of a head that has not moved.
  win_step-Inv :
      {n : ℕ} (i : ℕ) (t : Threads A)
      → let head = t.ring.cursors.head in
        (t.handles i).place ≡ swapping head
        → Inv (suc n) t
        → (t' : Threads A) × (pop_step i (swapping head) false t ≡ some t') × Inv n t'
  unfolding pop_step swapped swap_head Cursors.publish_head
  win_step-Inv i t e k =
      let c = (t.handles i).consumer in
      let head = t.ring.cursors.head in
      let (lt, u) = pop_place k i e in
      let small : c.cached_tail < 2 ^ 63 = omega (arith, k.small, (k.handles i).old) in
      let (first, within) = batch_after-bounds head c.cached_tail lt small in
      (
        _,
        rw ((==_iff head head).1 refl) refl,
        claimed-Inv i t (add_usize head 1) (batch_after head c.cached_tail) k
            (ap (λ p. progress p c) e) (omega arith) first
            (omega (arith, within, (k.handles i).old)),
      )

  pub swap_step-Inv :
      {n : ℕ} (i h : ℕ) (t : Threads A)
      → (t.handles i).place ≡ swapping h
      → Inv (suc n) t
      → (t' : Threads A) × (pop_step i (swapping h) false t ≡ some t') × Inv n t'
  unfolding pop_step swapped swap_head move put
  swap_step-Inv {n} i h t e k = elim (Bool-cases (t.ring.cursors.head == h)) [
    | inl won ↦
        let same = (==_iff t.ring.cursors.head h).0 won in
        subst (λ h. (t' : Threads A) × (pop_step i (swapping h) false t ≡ some t') × Inv n t') same
          (win_step-Inv i t (e ∙ ap swapping (sym same)) k)
    | inr lost ↦ (
      _,
      rw lost refl,
      move-Inv i heading t k (ap (λ p. progress p (t.handles i).consumer) e) refl tt,
    )
  ]
