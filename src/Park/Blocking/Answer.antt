-- ===== src/Park/Blocking/Answer.antt =====
-- What `pop_block` returns, and in particular once its peer has closed.
use mathlib.Core.List.{append_cancel_left}
use quetzalcoatl.Common.{
  ◌≡◌, ◌≢◌, refl, sym, ap, subst, ◌∙◌, Bool, true, false, none, some, List, [], ◌∷◌, ◌++◌,
  append_assoc, append-nil,
}
use quetzalcoatl.Common.Tests.{if◌then◌else◌, if-elim}
use quetzalcoatl.Park.ThreadParker.{Thread}
use quetzalcoatl.Sync.Backoff
use quetzalcoatl.Sync.Backoff.{Backoff}
use quetzalcoatl.Park.Blocking.{
  Waiting, trying, checking, spinning, arming, setting, retrying, rechecking, parking, waking,
  found, leaving, draining, returned, Waker, idle, loading, clearing, claiming, Site, Turn, wait,
  spurious, publish, close, wake, try_then, spin_then, wait_step, spurious_step, wake_step,
  publish_step, close_step, turn, run, start,
}
use quetzalcoatl.Park.Blocking.Account.{
  Account, nothing_yet, put, answer, add_put, add_answer, account,
}

module _ {ℓ} {A : Type ℓ} where
  -- The item that the waiter has taken and not returned yet.
  abbrev in_hand : Waiting A → List A
  in_hand (found v) = v ∷ []
  in_hand w = []

  -- A place that the waiter reaches only after it has seen the close.
  abbrev gone : Waiting A → Bool
  gone leaving = true
  gone draining = true
  gone w = false

  record Told (a : Account A) (w : Waiting A) (q : List A) (closed : Bool) : Type ℓ where
    kept : a.before_close ++ a.after_close ≡ a.answered ++ (in_hand w ++ q)
    early : closed ≡ false → a.after_close ≡ []
    shut : gone w ≡ true → closed ≡ true
    dry :
        w ≡ returned none
        → (closed ≡ true) × (late : List A) × (a.answered ≡ a.before_close ++ late)

  -- The account after a turn of the waiter that leaves it at `w`.
  abbrev After : Account A → Waiting A → List A → Bool → Type ℓ
  After a w q closed = Told (add_answer (answer wait w) a) w q closed

  quiet :
      {a : Account A} (w : Waiting A) {q : List A} {closed : Bool}
      → gone w ≡ false
      → w ≢ returned none
      → a.before_close ++ a.after_close ≡ a.answered ++ (in_hand w ++ q)
      → (closed ≡ false → a.after_close ≡ [])
      → Told a w q closed
  quiet w here some_item kept early = record {
    kept = kept;
    early = early;
    shut = λ e. cc (e, here);
    dry = λ e. absurd (some_item e);
  }

  answer-Told :
      (a : Account A) (v : A) (q : List A) (closed : Bool)
      → a.before_close ++ a.after_close ≡ a.answered ++ (v ∷ q)
      → (closed ≡ false → a.after_close ≡ [])
      → After a (returned (some v)) q closed
  answer-Told a v q closed kept early =
      quiet (returned (some v)) refl (cc) (kept ∙ sym (append_assoc a.answered (v ∷ []) q)) early

  snoc :
      (v : A) {xs : List A} (r p q : List A)
      → xs ≡ r ++ (p ++ q)
      → xs ++ (v ∷ []) ≡ r ++ (p ++ (q ++ (v ∷ [])))
  snoc v r p q e =
      ap (λ l. l ++ (v ∷ [])) e
      ∙ append_assoc r (p ++ q) (v ∷ [])
      ∙ ap (λ l. r ++ l) (append_assoc p q (v ∷ []))

  put-Told :
      (a : Account A) (v : A) (w : Waiting A) (q : List A) (closed : Bool)
      → Told a w q closed
      → Told (add_put (some v) closed a) w (q ++ (v ∷ [])) closed
  put-Told a v w q true k = record {
    kept =
        sym (append_assoc a.before_close a.after_close (v ∷ []))
        ∙ snoc v a.answered (in_hand w) q k.kept;
    early = λ e. cc e;
    shut = k.shut;
    dry = k.dry;
  }
  put-Told a v w q false k = record {
    kept =
        ap (λ l. (a.before_close ++ (v ∷ [])) ++ l) (k.early refl)
        ∙ append-nil (a.before_close ++ (v ∷ []))
        ∙ snoc v a.answered (in_hand w) q (
            sym (append-nil a.before_close)
            ∙ ap (λ l. a.before_close ++ l) (sym (k.early refl))
            ∙ k.kept);
    early = k.early;
    shut = k.shut;
    dry = λ e. let shut : false ≡ true = (k.dry e).0 in absurd (cc shut);
  }

  close-Told :
      (a : Account A) (w : Waiting A) (q : List A) (closed : Bool)
      → Told a w q closed
      → Told a w q true
  close-Told a w q closed k = record {
    kept = k.kept;
    early = λ e. cc e;
    shut = λ e. refl;
    dry = λ e. (refl, (k.dry e).1, (k.dry e).2);
  }

  leave-After :
      (a : Account A) (closed : Bool) (gone_to going : Waiting A) (q : List A)
      → (closed ≡ true → After a gone_to q closed)
      → After a going q closed
      → After a (if closed then gone_to else going) q closed
  leave-After a true gone_to going q h k = h refl
  leave-After a false gone_to going q h k = k

  -- The turn of the waiter that tries the ring.
  try_then-After :
      (a : Account A) (hit : A → Waiting A) (miss : Waiting A) (q : List A) (s : Site A)
      → s.items ≡ q
      → a.before_close ++ a.after_close ≡ a.answered ++ s.items
      → ((v : A) (rest : List A)
          → a.before_close ++ a.after_close ≡ a.answered ++ (v ∷ rest)
          → After a (hit v) rest s.closed)
      → (a.before_close ++ a.after_close ≡ a.answered ++ [] → After a miss s.items s.closed)
      → let t = try_then hit miss q s in After a t.waiter t.items t.closed
  unfolding try_then
  try_then-After a hit miss [] s e kept got missed = missed (kept ∙ ap (λ l. a.answered ++ l) e)
  try_then-After a hit miss (v ∷ q) s e kept got missed =
      got v q (kept ∙ ap (λ l. a.answered ++ l) e)

  spin_then-After :
      (a : Account A) (p : Backoff × Bool) (q : List A) (closed : Bool)
      → a.before_close ++ a.after_close ≡ a.answered ++ q
      → (closed ≡ false → a.after_close ≡ [])
      → After a (spin_then p) q closed
  unfolding spin_then
  spin_then-After a (b, more) q closed kept early =
      if-elim more (λ (w : Waiting A). After a w q closed) (quiet (trying b) refl (cc) kept early)
        (quiet (arming b) refl (cc) kept early)

module _ {ℓ} {A : Type ℓ} (me : Thread) where
  abbrev AfterStep : Account A → Site A → Type ℓ
  AfterStep a t = After a t.waiter t.items t.closed

  park-After :
      (a : Account A) (token : Bool) (b : Backoff) (s : Site A)
      → s.waiter ≡ parking b
      → Told a (parking b) s.items s.closed
      → AfterStep a (if token then record s { token = false; waiter = waking b } else s)
  park-After a true b s e k = quiet (waking b) refl (cc) k.kept k.early
  park-After a false b s e k = subst (λ w. After a w s.items s.closed) (sym e) k

  wait-After :
      (a : Account A) (w : Waiting A) (s : Site A)
      → s.waiter ≡ w
      → Told a w s.items s.closed
      → AfterStep a (wait_step me w s)
  unfolding wait_step
  wait-After a (trying b) s e k =
      try_then-After a (λ v. returned (some v)) (checking b) s.items s refl k.kept
        (λ v q h. answer-Told a v q s.closed h k.early)
        (λ h. quiet (checking b) refl (cc) k.kept k.early)
  wait-After a (checking b) s e k =
      leave-After a s.closed draining (spinning b) s.items
        (λ c. record { kept = k.kept; early = k.early; shut = λ h. c; dry = λ h. cc h })
        (quiet (spinning b) refl (cc) k.kept k.early)
  wait-After a (spinning b) s e k = spin_then-After a _ s.items s.closed k.kept k.early
  wait-After a (arming b) s e k = quiet (setting b) refl (cc) k.kept k.early
  wait-After a (setting b) s e k = quiet (retrying b) refl (cc) k.kept k.early
  wait-After a (retrying b) s e k =
      try_then-After a found (rechecking b) s.items s refl k.kept
        (λ v q h. quiet (found v) refl (cc) h k.early)
        (λ h. quiet (rechecking b) refl (cc) k.kept k.early)
  wait-After a (rechecking b) s e k =
      leave-After a s.closed leaving (parking b) s.items
        (λ c. record { kept = k.kept; early = k.early; shut = λ h. c; dry = λ h. cc h })
        (quiet (parking b) refl (cc) k.kept k.early)
  wait-After a (parking b) s e k = park-After a s.token b s e k
  wait-After a (waking b) s e k = quiet (trying b) refl (cc) k.kept k.early
  wait-After a (found v) s e k = answer-Told a v s.items s.closed k.kept k.early
  wait-After a leaving s e k = record {
    kept = k.kept;
    early = k.early;
    shut = k.shut;
    dry = λ h. cc h;
  }
  wait-After a draining s e k =
      try_then-After a (λ v. returned (some v)) (returned none) s.items s refl k.kept
        (λ v q h. answer-Told a v q s.closed h k.early)
        (λ h. record {
          kept = k.kept;
          early = k.early;
          shut = λ c. cc c;
          dry = λ r. (k.shut refl, a.after_close, sym (h ∙ append-nil a.answered));
        })
  wait-After a (returned r) s e k = quiet (trying Backoff.fresh) refl (cc) k.kept k.early

  abbrev Kept : Account A → Site A → Type ℓ
  Kept a s = Told a s.waiter s.items s.closed

  spurious-Kept :
      (a : Account A) (w : Waiting A) (s : Site A)
      → Told a w s.items s.closed
      → Kept a s
      → Kept a (spurious_step w s)
  unfolding spurious_step
  spurious-Kept a (parking b) s h k = quiet (waking b) refl (cc) h.kept h.early
  spurious-Kept a w s h k = k

  publish-Kept :
      (a : Account A) (v : A) (p : Waker) (s : Site A)
      → Kept a s
      → Kept (add_put (put (publish v) p) s.closed a) (publish_step v p s)
  unfolding publish_step
  publish-Kept a v idle s k = put-Told a v s.waiter s.items s.closed k
  publish-Kept a v loading s k = k
  publish-Kept a v clearing s k = k
  publish-Kept a v claiming s k = k

  close-Kept : (a : Account A) (p : Waker) (s : Site A) → Kept a s → Kept a (close_step p s)
  unfolding close_step
  close-Kept a idle s k = close-Told a s.waiter s.items s.closed k
  close-Kept a loading s k = k
  close-Kept a clearing s k = k
  close-Kept a claiming s k = k

  wake-Kept : (a : Account A) (p : Waker) (s : Site A) → Kept a s → Kept a (wake_step me p s)
  unfolding wake_step
  wake-Kept a idle s k = k
  wake-Kept a loading s k = k
  wake-Kept a clearing s k = k
  wake-Kept a claiming s k = k

  turn-Kept :
      (a : Account A) (m : Turn A) (s : Site A)
      → Kept a s
      → let t = turn me m s in
        Kept (add_answer (answer m t.waiter) (add_put (put m s.peer) s.closed a)) t
  unfolding turn
  turn-Kept a wait s k = wait-After a s.waiter s refl k
  turn-Kept a spurious s k = spurious-Kept a s.waiter s k k
  turn-Kept a (publish v) s k = publish-Kept a v s.peer s k
  turn-Kept a close s k = close-Kept a s.peer s k
  turn-Kept a wake s k = wake-Kept a s.peer s k

  run-Kept :
      (ms : List (Turn A)) (s : Site A) (a : Account A)
      → Kept a s
      → Kept (account me ms s a) (run me ms s)
  unfolding run account
  run-Kept [] s a k = k
  run-Kept (m ∷ ms) s a k = run-Kept ms (turn me m s) _ (turn-Kept a m s k)

  -- Whatever the order of the steps, when a call of `pop_block` has returned none, the peer has closed,
  -- and the calls up to then have returned every item that was published before the close, in the order
  -- of publication and each once. Of the items published after the close they have returned the first,
  -- and exactly the others are left in the ring, in order.
  pub run_returns_none :
      (ms : List (Turn A))
      → (run me ms start).waiter ≡ returned none
      → let s = run me ms start in
        let a = account me ms start nothing_yet in
        (s.closed ≡ true)
        × (late : List A) × (a.answered ≡ a.before_close ++ late)
        × (a.after_close ≡ late ++ s.items)
  run_returns_none ms e =
      let s = run me ms start in
      let a = account me ms start nothing_yet in
      let k =
        run-Kept ms start nothing_yet (quiet (trying Backoff.fresh) refl (cc) refl (λ c. refl)) in
      let (closed, late, returns) = k.dry e in
      let all : a.before_close ++ a.after_close ≡ a.before_close ++ (late ++ s.items) =
        k.kept
        ∙ ap (λ w. a.answered ++ (in_hand w ++ s.items)) e
        ∙ ap (λ l. l ++ s.items) returns
        ∙ append_assoc a.before_close late s.items in
      (closed, late, returns, append_cancel_left a.before_close _ _ all)
