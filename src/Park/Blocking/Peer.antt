-- ===== src/Park/Blocking/Peer.antt =====
-- The steps of the peer keep what the waiter relies on.
use quetzalcoatl.Common.{◌≡◌, refl, ap, ◌∙◌, inl, inr, Bool, true, Option, none, some, arith}
use quetzalcoatl.Park.ThreadParker
use quetzalcoatl.Park.ThreadParker.{Thread}
use quetzalcoatl.Park.SoleParker
use quetzalcoatl.Park.SoleParker.{SoleParker}
use quetzalcoatl.Park.Blocking.{
  Waker, idle, loading, clearing, claiming, Site, unparks, wake_step, publish_step, close_step,
}
use quetzalcoatl.Park.Blocking.Promise.{
  Level, unarmed, handed, flagged, emptied, asleep, Kept-map, Promise-map, still_up, Handed,
  Flagged, Busy, Promise,
}

unparks-some :
    (me : Thread) (h : Option Thread) (token : Bool) → h ≡ some me → unparks me h token ≡ true
unfolding unparks
unparks-some me none token e = cc
unparks-some me (some t) token e = ground arith

unparks-token : (me : Thread) (h : Option Thread) → unparks me h true ≡ true
unfolding unparks
unparks-token me none = refl
unparks-token me (some t) = ground arith

claim_handle-some :
    (p : SoleParker) {t : Thread}
    → p.parker.handle ≡ some t
    → (SoleParker.claim_handle p).1 ≡ some t
unfolding SoleParker.claim_handle ThreadParker.wake
claim_handle-some p e = rw e refl

module _ {ℓ} {A : Type ℓ} (me : Thread) where
  pub publish-Promise :
      (v : A) (l : Level) (p : Waker) (s : Site A)
      → s.peer ≡ p
      → Promise me l s
      → Promise me l (publish_step v p s)
  unfolding publish_step
  publish-Promise v l idle s e k =
      let t = publish_step v idle s in
      Promise-map me l s t refl
        (Kept-map me l s t (λ h. h) (still_up me s t refl (cc e)) (λ f d. inr (cc))
          (λ f o. inr (cc)))
        k
  publish-Promise v l loading s e k = k
  publish-Promise v l clearing s e k = k
  publish-Promise v l claiming s e k = k

  pub close-Promise :
      (l : Level) (p : Waker) (s : Site A)
      → s.peer ≡ p
      → Promise me l s
      → Promise me l (close_step p s)
  unfolding close_step
  close-Promise l idle s e k =
      let t = close_step idle s in
      Promise-map me l s t refl
        (Kept-map me l s t (λ h. h) (still_up me s t refl (cc e)) (λ f d. inr (cc))
          (λ f o. inr (cc)))
        k
  close-Promise l loading s e k = k
  close-Promise l clearing s e k = k
  close-Promise l claiming s e k = k

  -- The load of the flag finds it up.
  load-Busy : (s : Site A) → s.peer ≡ loading → Flagged me s → Busy me (wake_step me loading s)
  unfolding wake_step
  load-Busy s e (inl up) = rw up (cc)
  load-Busy s e (inr at) = absurd (cc (e, at))

  taken : (s : Site A) → Handed me s → unparks me (SoleParker.claim_handle s.park).1 s.token ≡ true
  taken s h = unparks-some me _ s.token (claim_handle-some s.park h)

  pub wake-Promise :
      (l : Level) (p : Waker) (s : Site A)
      → s.peer ≡ p
      → Promise me l s
      → Promise me l (wake_step me p s)
  unfolding wake_step SoleParker.disarm
  wake-Promise l idle s e k = k
  wake-Promise l loading s e k =
      let t = wake_step me loading s in
      Promise-map me l s t refl
        (Kept-map me l s t (λ h. h) (still_up me s t refl (cc e)) (λ f d. inr (load-Busy s e f))
          (λ f o. inr (load-Busy s e f)))
        k
  wake-Promise l clearing s e k =
      let t = wake_step me clearing s in
      Promise-map me l s t refl
        (Kept-map me l s t (λ h. h) (λ f. inr refl) (λ f d. inr (cc)) (λ f o. inr (cc))) k
  wake-Promise l claiming s e (inl token) =
      inl (ap (unparks me (SoleParker.claim_handle s.park).1) token ∙ unparks-token me _)
  wake-Promise unarmed claiming s e (inr k) = inr tt
  wake-Promise handed claiming s e (inr (h, k)) = inl (taken s h)
  wake-Promise flagged claiming s e (inr (h, f, k)) = inl (taken s h)
  wake-Promise emptied claiming s e (inr (h, f, d)) = inl (taken s h)
  wake-Promise asleep claiming s e (inr (h, f, o, d)) = inl (taken s h)

  -- The steps of the peer leave the waiter where it is.
  pub publish-waiter : (v : A) (p : Waker) (s : Site A) → (publish_step v p s).waiter ≡ s.waiter
  unfolding publish_step
  publish-waiter v idle s = refl
  publish-waiter v loading s = refl
  publish-waiter v clearing s = refl
  publish-waiter v claiming s = refl

  pub close-waiter : (p : Waker) (s : Site A) → (close_step p s).waiter ≡ s.waiter
  unfolding close_step
  close-waiter idle s = refl
  close-waiter loading s = refl
  close-waiter clearing s = refl
  close-waiter claiming s = refl

  pub wake-waiter : (p : Waker) (s : Site A) → (wake_step me p s).waiter ≡ s.waiter
  unfolding wake_step
  wake-waiter idle s = refl
  wake-waiter loading s = refl
  wake-waiter clearing s = refl
  wake-waiter claiming s = refl
