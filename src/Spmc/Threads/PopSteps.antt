-- ===== src/Spmc/Threads/PopSteps.antt =====
-- The read of a claimed position of an spmc ring, and its release, keep what holds of the ring.
use quetzalcoatl.Common.{
  ℕ, suc, ◌%◌, ◌<◌, ◌≡◌, ◌≢◌, refl, sym, ap, ap₂, subst, ◌∙◌, inl, inr, Bool, true, false, Option,
  none, some, List, [], ◌∷◌, ◌++◌, arith,
}
use native.Mathlib.Nat.{mod-lt}
use quetzalcoatl.Common.Tests.{leb, Bool-cases}
use quetzalcoatl.Common.Lists.{length, set, length-set, get_elem?-set_self, get_elem?-set_ne}
use quetzalcoatl.Capacity.Lap.{cap_pos}
use quetzalcoatl.Sync.CloseState
use quetzalcoatl.Slot.Done
use quetzalcoatl.Slot.Done.{DoneWord}
use quetzalcoatl.Mpsc.Board.{update, update_self, update-ne}
use quetzalcoatl.Spmc.Ring.{wake_producer}
use quetzalcoatl.Spmc.Access.{take_slot-at, release_slot-at}
use quetzalcoatl.Spmc.Ledger.{
  Fate, taken, given, give, read_by, read_by_self, reads, reads-same, value, published-same,
  IsForeign, IsOwned, At,
}
use quetzalcoatl.Spmc.Threads.{
  Pushing, resting, writing, publishing, gone, Popping, idle, heading, comparing, closing,
  rechecking, reheading, swapping, reading, releasing, Handle, Threads, put, move, pop_step,
}
use quetzalcoatl.Spmc.Threads.Inv.{progress, Free, PushAt, HandleAt, Inv}
use quetzalcoatl.Spmc.Threads.Frame.{
  Free-apart, Kept-set_value, Kept-set_word, At-set_value, At-set_word, update_elim, Alike-update,
  put-HandleAt, Inv-parks,
}
use quetzalcoatl.Spmc.Threads.Looks.{
  pop_place, idle_step-Inv, compare_step-Inv, move-Inv, look-Inv, calm,
}
use quetzalcoatl.Spmc.Threads.Claims.{swap_step-Inv}

module _ {ℓ} {A : Type ℓ} where
  -- The producer does not see a change of the slot of another position.
  PushAt-set_value :
      (values : List (Option A)) (done : List DoneWord) (m p tail : ℕ) (new : Option A)
      (place : Pushing A)
      → Free done m p
      → p ≢ tail
      → PushAt values done m tail place
      → PushAt (set values (p % m) new) done m tail place
  PushAt-set_value values done m p tail new resting own ne k = tt
  PushAt-set_value values done m p tail new (writing pos v) own ne k = k
  PushAt-set_value values done m p tail new (publishing pos v) own ne (e, k) =
      (e, Kept-set_value values done m p pos new own (λ same. ne (same ∙ e)) k)
  PushAt-set_value values done m p tail new gone own ne k = tt

  PushAt-set_word :
      (values : List (Option A)) (done : List DoneWord) (m p tail : ℕ) (new : DoneWord)
      (place : Pushing A)
      → Free done m p
      → p ≢ tail
      → PushAt values done m tail place
      → PushAt values (set done (p % m) new) m tail place
  PushAt-set_word values done m p tail new resting own ne k = tt
  PushAt-set_word values done m p tail new (writing pos v) own ne (e, k, u) =
      (e, get_elem?-set_ne done new (Free-apart done m p pos own k (λ same. ne (same ∙ e))) ∙ k, u)
  PushAt-set_word values done m p tail new (publishing pos v) own ne (e, k) =
      (e, Kept-set_word values done m p pos new own (λ same. ne (same ∙ e)) k)
  PushAt-set_word values done m p tail new gone own ne k = tt

  -- A handle that has read the position `p`.
  taken-HandleAt :
      (i : ℕ) (h : Handle) (f : ℕ → Fate A) (out : List A) (head tail p : ℕ) (v : A)
      → HandleAt i h f out head tail
      → progress h.place h.consumer ≡ p
      → suc p ≡ h.consumer.batch_next
      → HandleAt i
          (record h { place = releasing p })
          (update f p (taken i v))
          (out ++ (v ∷ []))
          head
          tail
  taken-HandleAt i h f out head tail p v k e up =
      let g = update f p (taken i v) in
      record {
        old = k.old;
        batch = k.batch;
        behind = k.behind;
        mine = λ q from to.
            let (w, s) = k.mine q from to in (w, update-ne f p q (taken i v) (omega arith) ∙ s);
        at = (omega arith, (v, update_self f p (taken i v)));
        got =
            ap₂ (λ a b. a ++ b)
              (k.got
                ∙ ap (reads i f) e
                ∙ sym (
                    reads-same i f g p
                      (λ q lt. ap (read_by i) (update-ne f p q (taken i v) (omega arith)))))
              (sym (ap (read_by i) (update_self f p (taken i v)) ∙ read_by_self i v))
            ∙ ap (reads i g) up;
        rest = λ q from.
            ap (read_by i) (update-ne f p q (taken i v) (omega arith))
            ∙ k.rest q (omega (arith, e, up, from));
      }

  given-HandleAt :
      (i : ℕ) (h : Handle) (f : ℕ → Fate A) (out : List A) (head tail p : ℕ) (v : A)
      → HandleAt i h f out head tail
      → progress h.place h.consumer ≡ h.consumer.batch_next
      → p < h.consumer.batch_next
      → f p ≡ taken i v
      → HandleAt i (record h { place = idle }) (update f p (given i v)) out head tail
  given-HandleAt i h f out head tail p v k e below at =
      let g = update f p (given i v) in
      let alike : (q : ℕ) → read_by i (g q) ≡ read_by i (f q) =
        update_elim (λ q x. read_by i x ≡ read_by i (f q)) f p (given i v) (ap (read_by i) (sym at))
          (λ q ne. refl) in
      record {
        old = k.old;
        batch = k.batch;
        behind = k.behind;
        mine = λ q from to.
            let (w, s) = k.mine q from to in (w, update-ne f p q (given i v) (omega arith) ∙ s);
        at = tt;
        got =
            k.got
            ∙ ap (reads i f) e
            ∙ sym (reads-same i f g h.consumer.batch_next (λ q lt. alike q));
        rest = λ q from. alike q ∙ k.rest q (omega (arith, e, from));
      }

  -- A handle changes the fate of a position below the head, and a slot.
  own-Inv :
      {n : ℕ} (i : ℕ) (h : Handle) (t : Threads A) (p : ℕ) (x : Fate A) (out : ℕ → List A)
      (values : List (Option A)) (words : List DoneWord)
      → let m = t.ring.capacity.cap in
        Inv (suc n) t
        → p < t.ring.cursors.head
        → IsOwned x
        → value x ≡ value (t.fate p)
        → ((j : ℕ) → j ≢ i → (IsForeign j (t.fate p) × IsForeign j x) × (out j ≡ t.received j))
        → length values ≡ m
        → length words ≡ m
        → At values words m x p
        → ((q : ℕ) → q ≢ p → At values words m (t.fate q) q)
        → PushAt values words m t.ring.cursors.tail t.pushing
        → HandleAt i h (update t.fate p x) (out i) t.ring.cursors.head t.ring.cursors.tail
        → Inv n (
            put i h (record t {
              ring = record (t.ring) { storage = values; done = words };
              fate = update t.fate p x;
              received = out;
            }))
  unfolding put
  own-Inv i h t p x out values words k below owned worth others size_v size_w here rest producer
        mine =
      record {
        valid = k.valid;
        values = size_v;
        words = size_w;
        small = omega (arith, k.small);
        ordered = k.ordered;
        cursor = k.cursor;
        slots = update_elim (λ q x. At values words t.ring.capacity.cap x q) t.fate p x here rest;
        ahead = λ q from. update-ne t.fate p q x (omega (arith, k.ordered)) ∙ k.ahead q from;
        waiting = λ q from to.
            let (v, s) = k.waiting q from to in (v, update-ne t.fate p q x (omega arith) ∙ s);
        behind =
            update_elim (λ q x. q < t.ring.cursors.head → IsOwned x) t.fate p x (λ lt. owned)
              (λ q ne lt. k.behind q lt);
        log =
            k.log
            ∙ sym (
                published-same t.fate (update t.fate p x) t.ring.cursors.tail (λ q lt.
                  update_elim (λ q x. value x ≡ value (t.fate q)) t.fate p x worth (λ q ne. refl)
                    q));
        pushing = producer;
        handles =
            put-HandleAt t.handles i h t.fate (update t.fate p x) t.received out _ _ _ _ k.handles
              mine (omega arith) (omega arith)
              (λ j ne. let ((a, b), same) = others j ne in (same, Alike-update j t.fate p x a b));
      }

  read_step-Inv :
      {n : ℕ} (i p : ℕ) (spurious : Bool) (t : Threads A)
      → (t.handles i).place ≡ reading p
      → Inv (suc n) t
      → (t' : Threads A) × (pop_step i (reading p) spurious t ≡ some t') × Inv n t'
  unfolding pop_step move
  read_step-Inv i p spurious t e k =
      let m = t.ring.capacity.cap in
      let c = (t.handles i).consumer in
      let (up, (v, at)) = pop_place k i e in
      let kept = subst (λ x. At t.ring.storage t.ring.done m x p) at (k.slots p) in
      let inside : p % m < length t.ring.storage = rw k.values (mod-lt p (cap_pos k.valid)) in
      let below : p < t.ring.cursors.head =
        omega (arith, up, (k.handles i).batch, (k.handles i).behind) in
      (
        _,
        rw (take_slot-at t.ring p k.valid (kept.value_at)) refl,
        own-Inv i (record (t.handles i) { place = releasing p }) t p (taken i v)
            (update t.received i (t.received i ++ (v ∷ []))) (set t.ring.storage (p % m) none)
            t.ring.done k below tt (ap value (sym at))
            (λ j ne. (
              (subst (IsForeign j) (sym at) (λ same. ne (sym same)), λ same. ne (sym same)),
              update-ne t.received i j _ ne,
            ))
            (length-set t.ring.storage (p % m) none ∙ k.values) k.words
            (record {
              word_at = kept.word_at;
              value_at = get_elem?-set_self t.ring.storage (p % m) none inside;
            })
            (λ q ne.
              At-set_value t.ring.storage t.ring.done m p q none (t.fate q) (kept.word_at)
                (λ same. ne (sym same)) (k.slots q))
            (PushAt-set_value t.ring.storage t.ring.done m p t.ring.cursors.tail none t.pushing
              (kept.word_at) (omega (arith, k.ordered)) k.pushing)
            (subst
              (λ l.
                HandleAt i (record (t.handles i) { place = releasing p })
                  (update t.fate p (taken i v)) l t.ring.cursors.head t.ring.cursors.tail)
              (sym (update_self t.received i (t.received i ++ (v ∷ []))))
              (taken-HandleAt i (t.handles i) t.fate (t.received i) _ _ p v (k.handles i)
                (ap (λ place. progress place c) e) up)),
      )

  release_step-Inv :
      {n : ℕ} (i p : ℕ) (spurious : Bool) (t : Threads A)
      → (t.handles i).place ≡ releasing p
      → Inv (suc n) t
      → (t' : Threads A) × (pop_step i (releasing p) spurious t ≡ some t') × Inv n t'
  unfolding pop_step move wake_producer put
  release_step-Inv {n} i p spurious t e k =
      let m = t.ring.capacity.cap in
      let c = (t.handles i).consumer in
      let (up, (v, at)) = pop_place k i e in
      let kept = subst (λ x. At t.ring.storage t.ring.done m x p) at (k.slots p) in
      let freed = Done.release p t.ring.capacity (record { at = p }) in
      let below : p < t.ring.cursors.head =
        omega (arith, up, (k.handles i).batch, (k.handles i).behind) in
      (
        move i idle (record t {
          ring = wake_producer (record (t.ring) { done = set t.ring.done (p % m) freed });
          fate = update t.fate p (give (t.fate p));
        }),
        rw (release_slot-at t.ring p k.valid (kept.word_at)) refl,
        Inv-parks _ _ _ _ (
            subst
              (λ x. Inv n (
                put i (record (t.handles i) { place = idle })
                  (record t {
                    ring = record (t.ring) { done = set t.ring.done (p % m) freed };
                    fate = update t.fate p x;
                  })))
              (sym (ap give at))
              (own-Inv i (record (t.handles i) { place = idle }) t p (given i v) t.received
                t.ring.storage (set t.ring.done (p % m) freed) k below tt (ap value (sym at))
                (λ j ne. (
                  (subst (IsForeign j) (sym at) (λ same. ne (sym same)), λ same. ne (sym same)),
                  refl,
                ))
                k.values (length-set t.ring.done (p % m) freed ∙ k.words) tt
                (λ q ne.
                  At-set_word t.ring.storage t.ring.done m p q freed (t.fate q) (kept.word_at)
                    (λ same. ne (sym same)) (k.slots q))
                (PushAt-set_word t.ring.storage t.ring.done m p t.ring.cursors.tail freed t.pushing
                  (kept.word_at) (omega (arith, k.ordered)) k.pushing)
                (given-HandleAt i (t.handles i) t.fate (t.received i) _ _ p v (k.handles i)
                  (ap (λ place. progress place c) e) up at))),
      )

  pub pop_step-Inv :
      {n : ℕ} (i : ℕ) (p : Popping) (spurious : Bool) (t : Threads A)
      → (t.handles i).place ≡ p
      → Inv (suc n) t
      → (t' : Threads A) × (pop_step i p spurious t ≡ some t') × Inv n t'
  unfolding pop_step
  pop_step-Inv i idle spurious t e k = idle_step-Inv i spurious t e k
  pop_step-Inv i heading spurious t e k =
      (_, refl, move-Inv i (comparing t.ring.cursors.head) t k (calm i t e refl) refl tt)
  pop_step-Inv i (comparing h) spurious t e k = compare_step-Inv i h spurious t e k
  pop_step-Inv i closing spurious t e k = (
    _,
    refl,
    elim (Bool-cases (CloseState.is_closed t.ring.closed)) [
      | inl yes_ ↦ rw yes_ (move-Inv i rechecking t k (calm i t e refl) refl tt)
      | inr no_ ↦ rw no_ (move-Inv i idle t k (calm i t e refl) refl tt)
    ],
  )
  pop_step-Inv i rechecking spurious t e k =
      (_, refl, look-Inv i reheading t k (calm i t e refl) refl tt)
  pop_step-Inv i reheading spurious t e k = (
    _,
    refl,
    elim (Bool-cases (leb (t.handles i).consumer.cached_tail t.ring.cursors.head)) [
      | inl over ↦ rw over (move-Inv i idle t k (calm i t e refl) refl tt)
      | inr left ↦ rw left (move-Inv i heading t k (calm i t e refl) refl tt)
    ],
  )
  pop_step-Inv i (swapping h) true t e k =
      (_, refl, move-Inv i heading t k (calm i t e refl) refl tt)
  pop_step-Inv i (swapping h) false t e k = swap_step-Inv i h t e k
  pop_step-Inv i (reading p) spurious t e k = read_step-Inv i p spurious t e k
  pop_step-Inv i (releasing p) spurious t e k = release_step-Inv i p spurious t e k
