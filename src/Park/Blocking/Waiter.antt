-- ===== src/Park/Blocking/Waiter.antt =====
-- The steps of the waiter keep what it relies on.
use quetzalcoatl.Common.{
  ◌≡◌, refl, sym, subst, ◌∙◌, inl, inr, Bool, true, false, none, List, [], ◌∷◌,
}
use quetzalcoatl.Common.Tests.{if◌then◌else◌}
use quetzalcoatl.Park.ThreadParker
use quetzalcoatl.Park.ThreadParker.{Thread}
use quetzalcoatl.Park.SoleParker
use quetzalcoatl.Park.SoleParker.{SoleParker}
use quetzalcoatl.Sync.Backoff.{Backoff}
use quetzalcoatl.Park.Blocking.{
  Waiting, trying, checking, spinning, arming, setting, retrying, rechecking, parking, waking,
  found, leaving, draining, returned, Site, spin_then, try_then, wait_step, spurious_step,
}
use quetzalcoatl.Park.Blocking.Promise.{Level, unarmed, flagged, emptied, asleep, level, Promise}

module _ {ℓ} {A : Type ℓ} where
  level-if :
      (b : Bool) (x y : Waiting A)
      → level x ≡ unarmed
      → level y ≡ unarmed
      → level (if b then x else y) ≡ unarmed
  level-if true x y e e' = e
  level-if false x y e e' = e'

spin-level {ℓ} : (A : Type ℓ) (a : Backoff × Bool) → level {A = A} (spin_then a) ≡ unarmed
unfolding spin_then
spin-level A (b, more) = level-if more (trying b) (arming b) refl refl

module _ {ℓ} {A : Type ℓ} (me : Thread) where
  -- At a place that relies on nothing there is nothing to prove.
  at_ease : (t : Site A) (l : Level) → l ≡ unarmed → Promise me l t
  at_ease t l e = subst (λ l. Promise me l t) (sym e) (inr tt)

  try_then-Promise :
      (hit : A → Waiting A) (miss : Waiting A) (q : List A) (s : Site A)
      → ((v : A) → level (hit v) ≡ unarmed)
      → (s.items ≡ q → q ≡ [] → Promise me (level miss) (record s { waiter = miss }))
      → s.items ≡ q
      → let t = try_then hit miss q s in Promise me (level t.waiter) t
  unfolding try_then
  try_then-Promise hit miss [] s easy none_left e = none_left e refl
  try_then-Promise hit miss (v ∷ q) s easy none_left e = at_ease _ (level (hit v)) (easy v)

  recheck-Promise :
      (closed : Bool) (b : Backoff) (s : Site A)
      → s.closed ≡ closed
      → Promise me emptied s
      → let w : Waiting A = if closed then leaving else parking b in
        Promise me (level w) (record s { waiter = w })
  recheck-Promise true b s e k = inr tt
  recheck-Promise false b s e (inl token) = inl token
  recheck-Promise false b s e (inr (h, f, d)) = inr (h, f, inl e, d)

  park-Promise :
      (token : Bool) (b : Backoff) (s : Site A)
      → s.waiter ≡ parking b
      → Promise me asleep s
      → let t = if token then record s { token = false; waiter = waking b } else s in
        Promise me (level t.waiter) t
  park-Promise true b s e k = inr tt
  park-Promise false b s e k = subst (λ w. Promise me (level w) s) (sym e) k

  pub wait-Promise :
      (w : Waiting A) (s : Site A)
      → s.waiter ≡ w
      → Promise me (level w) s
      → let t = wait_step me w s in Promise me (level t.waiter) t
  unfolding wait_step SoleParker.publish_handle ThreadParker.arm SoleParker.set_parked
  wait-Promise (trying b) s e k =
      try_then-Promise _ (checking b) s.items s (λ v. refl) (λ e' e''. inr tt) refl
  wait-Promise (checking b) s e k = at_ease _ _ (level-if s.closed draining (spinning b) refl refl)
  wait-Promise (spinning b) s e k = at_ease _ _ (spin-level A _)
  wait-Promise (arming b) s e k = inr (refl, tt)
  wait-Promise (setting b) s e (inl token) = inl token
  wait-Promise (setting b) s e (inr (h, k)) = inr (h, inl refl, tt)
  wait-Promise (retrying b) s e k =
      try_then-Promise found (rechecking b) s.items s (λ v. refl)
        (λ e' e''. emptied_now k (e' ∙ e'')) refl
    where
      emptied_now : Promise me flagged s → s.items ≡ [] → Promise me emptied s
      emptied_now (inl token) e = inl token
      emptied_now (inr (h, f, k)) e = inr (h, f, inl e)
  wait-Promise (rechecking b) s e k = recheck-Promise s.closed b s refl k
  wait-Promise (parking b) s e k = park-Promise s.token b s e k
  wait-Promise (waking b) s e k = inr tt
  wait-Promise (found v) s e k = inr tt
  wait-Promise leaving s e k = inr tt
  wait-Promise draining s e k =
      try_then-Promise _ (returned none) s.items s (λ v. refl) (λ e' e''. inr tt) refl
  wait-Promise (returned r) s e k = inr tt

  pub spurious-Promise :
      (w : Waiting A) (s : Site A)
      → s.waiter ≡ w
      → Promise me (level s.waiter) s
      → let t = spurious_step w s in Promise me (level t.waiter) t
  unfolding spurious_step
  spurious-Promise (parking b) s e k = inr tt
  spurious-Promise w s e k = k
