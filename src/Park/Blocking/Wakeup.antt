-- ===== src/Park/Blocking/Wakeup.antt =====
-- No wake-up is lost.
use quetzalcoatl.Common.{
  ◌≡◌, ◌≢◌, refl, sym, ap, subst, ◌∙◌, ◌⊎◌, inl, inr, true, false, List, [], ◌∷◌,
}
use quetzalcoatl.Common.Tests.{if◌then◌else◌, Bool-cases}
use quetzalcoatl.Park.ThreadParker.{Thread}
use quetzalcoatl.Sync.Backoff.{Backoff}
use quetzalcoatl.Park.Blocking.{
  parking, Waker, idle, loading, clearing, claiming, Site, Turn, wait, spurious, publish, close,
  wake, wake_step, publish_step, close_step, turn, run, start,
}
use quetzalcoatl.Park.Blocking.Promise.{asleep, level, Promise}
use quetzalcoatl.Park.Blocking.Peer.{
  publish-Promise, close-Promise, wake-Promise, publish-waiter, close-waiter, wake-waiter,
}
use quetzalcoatl.Park.Blocking.Waiter.{wait-Promise, spurious-Promise}

settled {ℓ} : {P : Type ℓ} {p : Waker} → P ⊎ (p ≢ idle) → p ≡ idle → P
settled (inl p) quiet = p
settled (inr busy) quiet = absurd (busy quiet)

module _ {ℓ} {A : Type ℓ} (me : Thread) where
  Relies : Site A → Type ℓ
  Relies s = Promise me (level s.waiter) s

  after_peer : (s t : Site A) → t.waiter ≡ s.waiter → Promise me (level s.waiter) t → Relies t
  unfolding Relies
  after_peer s t e k = subst (λ w. Promise me (level w) t) (sym e) k

  turn-Relies : (m : Turn A) (s : Site A) → Relies s → Relies (turn me m s)
  unfolding turn Relies
  turn-Relies wait s k = wait-Promise me s.waiter s refl k
  turn-Relies spurious s k = spurious-Promise me s.waiter s refl k
  turn-Relies (publish v) s k =
      after_peer s (publish_step v s.peer s) (publish-waiter me v s.peer s)
        (publish-Promise me v (level s.waiter) s.peer s refl k)
  turn-Relies close s k =
      after_peer s (close_step s.peer s) (close-waiter me s.peer s)
        (close-Promise me (level s.waiter) s.peer s refl k)
  turn-Relies wake s k =
      after_peer s (wake_step me s.peer s) (wake-waiter me s.peer s)
        (wake-Promise me (level s.waiter) s.peer s refl k)

  run-Relies : (ms : List (Turn A)) (s : Site A) → Relies s → Relies (run me ms s)
  unfolding run
  run-Relies [] s k = k
  run-Relies (m ∷ ms) s k = run-Relies ms (turn me m s) (turn-Relies m s k)

  at_rest :
      (s : Site A) {b : Backoff}
      → s.waiter ≡ parking b
      → s.token ≡ false
      → s.peer ≡ idle
      → Relies s
      → (s.items ≡ []) × (s.closed ≡ false)
  unfolding Relies
  at_rest s e no_token quiet k = go (subst (λ w. Promise me (level w) s) e k)
    where
      go : Promise me asleep s → (s.items ≡ []) × (s.closed ≡ false)
      go (inl token) = absurd (cc (token, no_token))
      go (inr (h, f, o, d)) = (settled d quiet, settled o quiet)

  -- Whatever the order of the steps of a waiter and of its peer, spurious returns of `park` included:
  -- when the waiter is parked with no token and the peer has no wake under way, there is no item that
  -- the waiter misses and no close. So no wake-up is lost.
  pub run_no_lost_wake :
      (ms : List (Turn A)) {b : Backoff}
      → (run me ms start).waiter ≡ parking b
      → (run me ms start).token ≡ false
      → (run me ms start).peer ≡ idle
      → ((run me ms start).items ≡ []) × ((run me ms start).closed ≡ false)
  unfolding Relies
  run_no_lost_wake ms e no_token quiet =
      at_rest (run me ms start) e no_token quiet (run-Relies ms start (inr tt))

  peer-at : (s : Site A) {p : Waker} → s.peer ≡ p → (turn me wake s).peer ≡ (wake_step me p s).peer
  unfolding turn
  peer-at s e = ap (λ p. (wake_step me p s).peer) e

  idle-once : (s : Site A) → s.peer ≡ idle → (turn me wake s).peer ≡ idle
  unfolding wake_step
  idle-once s e = peer-at s e ∙ e

  claiming-once : (s : Site A) → s.peer ≡ claiming → (turn me wake s).peer ≡ idle
  unfolding wake_step
  claiming-once s e = peer-at s e

  clearing-twice : (s : Site A) → s.peer ≡ clearing → (turn me wake (turn me wake s)).peer ≡ idle
  unfolding wake_step
  clearing-twice s e = claiming-once (turn me wake s) (peer-at s e)

  loading-once :
      (s : Site A)
      → s.peer ≡ loading
      → ((turn me wake s).peer ≡ clearing) ⊎ ((turn me wake s).peer ≡ idle)
  unfolding wake_step
  loading-once s e = elim (Bool-cases s.park.parked) [
    | inl up ↦ inl (peer-at s e ∙ ap (λ b. if b then clearing else idle) up)
    | inr down ↦ inr (peer-at s e ∙ ap (λ b. if b then clearing else idle) down)
  ]

  abbrev finish : Site A → Site A
  finish s = turn me wake (turn me wake (turn me wake s))

  -- Three steps end any wake.
  finish-idle : (p : Waker) (s : Site A) → s.peer ≡ p → (finish s).peer ≡ idle
  finish-idle idle s e = idle-once _ (idle-once _ (idle-once s e))
  finish-idle claiming s e = idle-once _ (idle-once _ (claiming-once s e))
  finish-idle clearing s e = idle-once _ (clearing-twice s e)
  finish-idle loading s e = elim (loading-once s e) [
    | inl up ↦ clearing-twice (turn me wake s) up
    | inr down ↦ idle-once _ (idle-once _ down)
  ]

  wake-items : (p : Waker) (s : Site A) → (wake_step me p s).items ≡ s.items
  unfolding wake_step
  wake-items idle s = refl
  wake-items loading s = refl
  wake-items clearing s = refl
  wake-items claiming s = refl

  finish-items : (s : Site A) → (finish s).items ≡ s.items
  unfolding turn
  finish-items s = wake-items _ _ ∙ wake-items _ _ ∙ wake-items s.peer s

  finish-waiter : (s : Site A) → (finish s).waiter ≡ s.waiter
  unfolding turn
  finish-waiter s = wake-waiter me _ _ ∙ wake-waiter me _ _ ∙ wake-waiter me s.peer s

  -- However the steps of a waiter and of its peer are ordered: when the waiter is parked while there is
  -- an item, it has its token as soon as the peer has finished the wake that is under way, which takes
  -- three steps at most.
  pub run_wakes :
      (ms : List (Turn A)) {b : Backoff} {v : A} {q : List A}
      → (run me ms start).waiter ≡ parking b
      → (run me ms start).items ≡ v ∷ q
      → (run me (wake ∷ wake ∷ wake ∷ []) (run me ms start)).token ≡ true
  unfolding Relies run
  run_wakes ms e some_left =
      let s = run me ms start in
      elim (Bool-cases (finish s).token) [
        | inl token ↦ token
        | inr no_token ↦
            let (none_left, opens) =
              at_rest (finish s) (finish-waiter s ∙ e) no_token (finish-idle s.peer s refl)
                (run-Relies (wake ∷ wake ∷ wake ∷ []) s (run-Relies ms start (inr tt))) in
            absurd (cc (none_left, finish-items s, some_left))
      ]
