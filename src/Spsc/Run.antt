-- ===== src/Spsc/Run.antt =====
-- Any sequence of calls on the two handles of a ring, against the bounded queue. The guards are used in
-- the ways that their types allow: a reservation is written and then committed or dropped, and a
-- reader is dropped.
use quetzalcoatl.Common.{
  ℕ, ◌≡◌, refl, ap, subst, ◌∙◌, Bool, true, false, inl, inr, Option, none, some, List, [], ◌∷◌,
  arith,
}
use quetzalcoatl.Common.Tests.{ltb, ltb→lt, Bool-cases}
use quetzalcoatl.Common.Lists.{length}
use quetzalcoatl.Capacity.{Capacity}
use quetzalcoatl.Spsc.Ring.{Spsc, ◌>>=◌}
use quetzalcoatl.Spsc.Producer.{
  PushResult, ok, err, SlotWriter, push, reserve, write, commit, drop_if_uncommitted,
}
use quetzalcoatl.Spsc.Consumer.{SlotReader, pop, pop_ref, drop_reader}
use quetzalcoatl.Spsc.Queue
use quetzalcoatl.Spsc.Repr.{Repr}
use quetzalcoatl.Spsc.Push.{push_refines}
use quetzalcoatl.Spsc.Pop.{pop_refines}
use quetzalcoatl.Spsc.Reserve.{reserve_lem, reservation_lem}
use quetzalcoatl.Spsc.Reader.{pop_ref_empty, pop_ref_lem}
use quetzalcoatl.Spsc.Frame.{
  push-capacity, pop-capacity, reserve-capacity, write-capacity, commit-capacity, drop-capacity,
  pop_ref-capacity, drop_reader-capacity,
}

-- `emplace` is reserve, write, commit; `abandon` is reserve, write, drop; `consume_ref` is `pop_ref` and
-- the drop of the reader.
pub data Call {ℓ} (A : Type ℓ) : Type ℓ where
  send : A → Call A
  emplace : A → Call A
  abandon : A → Call A
  receive : Call A
  consume_ref : Call A

-- What a call returns: the result of a push, the item of a pop, or whether a slot was granted.
pub data Reply {ℓ} (A : Type ℓ) : Type ℓ where
  pushed : PushResult A → Reply A
  popped : Option A → Reply A
  granted : Bool → Reply A

module _ {ℓ} {A : Type ℓ} where
  unfoldable pub emplace_at : A → Option SlotWriter × Spsc A → Option (Reply A × Spsc A)
  emplace_at v (none, s) = some (pushed (err v), s)
  emplace_at v (some w, s) = do (k, s') ← write w v s; t ← commit k s'; some (pushed ok, t)

  unfoldable pub abandon_at : A → Option SlotWriter × Spsc A → Option (Reply A × Spsc A)
  abandon_at v (none, s) = some (granted false, s)
  abandon_at v (some w, s) = do
    (k, s') ← write w v s
    (dropped, t) ← drop_if_uncommitted k s'
    some (granted true, t)

  unfoldable pub consume_at : Option SlotReader × Spsc A → Option (Reply A × Spsc A)
  consume_at (none, s) = some (popped none, s)
  consume_at (some reader, s) = do (v, t) ← drop_reader reader s; some (popped (some v), t)

  unfoldable pub call : Call A → Spsc A → Option (Reply A × Spsc A)
  call (send v) s = do (r, s') ← push v s; some (pushed r, s')
  call (emplace v) s = emplace_at v (reserve s)
  call (abandon v) s = abandon_at v (reserve s)
  call receive s = do (r, s') ← pop s; some (popped r, s')
  call consume_ref s = consume_at (pop_ref s)

  unfoldable pub run : List (Call A) → Spsc A → Option (List (Reply A) × Spsc A)
  run [] s = some ([], s)
  run (c ∷ cs) s = do (r, s') ← call c s; (rs, t) ← run cs s'; some (r ∷ rs, t)

  -- The same calls on the queue.
  unfoldable pub queue_call : ℕ → Call A → List A → Reply A × List A
  queue_call cap (send v) q = (pushed (Queue.push cap v q).0, (Queue.push cap v q).1)
  queue_call cap (emplace v) q = (pushed (Queue.push cap v q).0, (Queue.push cap v q).1)
  queue_call cap (abandon v) q = (granted (ltb (length q) cap), q)
  queue_call cap receive q = (popped (Queue.pop q).0, (Queue.pop q).1)
  queue_call cap consume_ref q = (popped (Queue.pop q).0, (Queue.pop q).1)

  unfoldable pub queue_run : ℕ → List (Call A) → List A → List (Reply A) × List A
  queue_run cap [] q = ([], q)
  queue_run cap (c ∷ cs) q =
      let (r, q') = queue_call cap c q in let (rs, t) = queue_run cap cs q' in (r ∷ rs, t)

  -- A call that answers as the queue, in a ring of the same capacity.
  record Answers (c : Call A) (s : Spsc A) (out : Reply A × List A) : Type ℓ where
    after : Spsc A
    runs : call c s ≡ some (out.0, after)
    left : Repr after out.1
    same : after.ring.capacity ≡ s.ring.capacity

  send-Answers :
      (v : A) (s : Spsc A) (q : List A)
      → Repr s q
      → Answers (send v) s (queue_call s.ring.capacity.cap (send v) q)
  unfolding call queue_call
  send-Answers v s q r =
      let (s', e, r') = push_refines v r in
      record { after = s'; runs = rw e; left = r'; same = push-capacity v s e }

  receive-Answers :
      (s : Spsc A) (q : List A)
      → Repr s q
      → Answers receive s (queue_call s.ring.capacity.cap receive q)
  unfolding call queue_call
  receive-Answers s q r =
      let (s', e, r') = pop_refines r in
      record { after = s'; runs = rw e; left = r'; same = pop-capacity s e }

  emplace-Answers :
      (v : A) (s : Spsc A) (q : List A)
      → Repr s q
      → Answers (emplace v) s (queue_call s.ring.capacity.cap (emplace v) q)
  unfolding call queue_call emplace_at Queue.push
  emplace-Answers v s q r = elim (Bool-cases (ltb (length q) s.ring.capacity.cap)) [
    | inl room ↦
        let (w, s₁, e₁, k) = (reserve_lem r).0 (ltb→lt _ _ room) in
        let (slot, s₂, e₂, commits, drops, held, forgotten) = reservation_lem v w k in
        let (s₃, e₃, r₃) = commits in
        rw room (record {
          after = s₃;
          runs = rw (e₁, e₂, e₃);
          left = r₃;
          same = commit-capacity slot s₂ e₃ ∙ write-capacity w v s₁ e₂ ∙ reserve-capacity s e₁;
        })
    | inr full ↦
        let (s₁, e₁, r₁) = (reserve_lem r).1 (ground (arith, r.items.fits)) in
        rw full (record { after = s₁; runs = rw e₁; left = r₁; same = reserve-capacity s e₁ })
  ]

  abandon-Answers :
      (v : A) (s : Spsc A) (q : List A)
      → Repr s q
      → Answers (abandon v) s (queue_call s.ring.capacity.cap (abandon v) q)
  unfolding call queue_call abandon_at
  abandon-Answers v s q r = elim (Bool-cases (ltb (length q) s.ring.capacity.cap)) [
    | inl room ↦
        let (w, s₁, e₁, k) = (reserve_lem r).0 (ltb→lt _ _ room) in
        let (slot, s₂, e₂, commits, drops, held, forgotten) = reservation_lem v w k in
        let (s₃, e₃, emptied_slot, r₃) = drops in
        rw room (record {
          after = s₃;
          runs = rw (e₁, e₂, e₃);
          left = r₃;
          same = drop-capacity slot s₂ e₃ ∙ write-capacity w v s₁ e₂ ∙ reserve-capacity s e₁;
        })
    | inr full ↦
        let (s₁, e₁, r₁) = (reserve_lem r).1 (ground (arith, r.items.fits)) in
        rw full (record { after = s₁; runs = rw e₁; left = r₁; same = reserve-capacity s e₁ })
  ]

  consume-Answers :
      (s : Spsc A) (q : List A)
      → Repr s q
      → Answers consume_ref s (queue_call s.ring.capacity.cap consume_ref q)
  unfolding call queue_call consume_at Queue.pop
  consume-Answers s [] r =
      let (s₁, e₁, r₁) = pop_ref_empty r in
      record { after = s₁; runs = rw e₁; left = r₁; same = pop_ref-capacity s e₁ }
  consume-Answers s (v ∷ q) r =
      let (reader, s₁, e₁, lent, drops) = pop_ref_lem r in
      let (s₂, e₂, r₂) = drops in
      record {
        after = s₂;
        runs = rw (e₁, e₂);
        left = r₂;
        same = drop_reader-capacity reader s₁ e₂ ∙ pop_ref-capacity s e₁;
      }

  call-Answers :
      (c : Call A) (s : Spsc A) (q : List A)
      → Repr s q
      → Answers c s (queue_call s.ring.capacity.cap c q)
  call-Answers (send v) s q r = send-Answers v s q r
  call-Answers (emplace v) s q r = emplace-Answers v s q r
  call-Answers (abandon v) s q r = abandon-Answers v s q r
  call-Answers receive s q r = receive-Answers s q r
  call-Answers consume_ref s q r = consume-Answers s q r

  abbrev pub RunsAs : ℕ → List (Call A) → Spsc A → List A → Type ℓ
  RunsAs cap cs s q =
      let (replies, q') = queue_run cap cs q in
      (s' : Spsc A) × (run cs s ≡ some (replies, s')) × Repr s' q'

  -- No sequence of calls runs into undefined behaviour, and none tells a ring from the bounded queue of
  -- the items that it holds: the replies are the queue's, and the ring holds what the queue does.
  pub run_refines :
      (cs : List (Call A)) {s : Spsc A} {q : List A} → Repr s q → RunsAs s.ring.capacity.cap cs s q
  unfolding run queue_run
  run_refines [] {s} r = (s, refl, r)
  run_refines (c ∷ cs) {s} {q} r =
      let a = call-Answers c s q r in
      let (t, e, r') =
        subst (λ m. RunsAs m cs a.after (queue_call s.ring.capacity.cap c q).1)
          (ap (λ (k : Capacity). k.cap) a.same) (run_refines cs a.left) in
      (t, rw (a.runs, e), r')
