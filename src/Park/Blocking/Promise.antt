-- ===== src/Park/Blocking/Promise.antt =====
-- What the waiter in `pop_block` may rely on at each place when it has no token.
use quetzalcoatl.Common.{◌≡◌, ◌≢◌, ◌∙◌, ◌⊎◌, inl, inr, true, false, some, []}
use quetzalcoatl.Park.ThreadParker.{Thread}
use quetzalcoatl.Park.Blocking.{
  Waiting, setting, retrying, rechecking, parking, idle, claiming, Site,
}

-- How far the waiter has come: its handle is out, its flag is up, it has seen no item, it has seen the
-- peer there.
pub data Level : Type 0 where
  unarmed handed flagged emptied asleep : Level

abbrev pub level {ℓ} : {A : Type ℓ} → Waiting A → Level
level (setting b) = handed
level (retrying b) = flagged
level (rechecking b) = emptied
level (parking b) = asleep
level w = unarmed

module _ {ℓ} {A : Type ℓ} (me : Thread) where
  abbrev pub Handed : Site A → Type 0
  Handed s = s.park.parker.handle ≡ some me

  -- The flag is up, or the peer is about to take the handle.
  abbrev pub Flagged : Site A → Type 0
  Flagged s = (s.park.parked ≡ true) ⊎ (s.peer ≡ claiming)

  abbrev pub Busy : Site A → Type 0
  Busy s = s.peer ≢ idle

  abbrev pub Dry : Site A → Type ℓ
  Dry s = (s.items ≡ []) ⊎ Busy s

  abbrev pub Open : Site A → Type 0
  Open s = (s.closed ≡ false) ⊎ Busy s

  -- What holds at a level when there is no token.
  abbrev pub Kept : Level → Site A → Type ℓ
  Kept unarmed s = Unit {ℓ}
  Kept handed s = Handed s × Unit {ℓ}
  Kept flagged s = Handed s × Flagged s × Unit {ℓ}
  Kept emptied s = Handed s × Flagged s × Dry s
  Kept asleep s = Handed s × Flagged s × Open s × Dry s

  abbrev pub Promise : Level → Site A → Type ℓ
  Promise l s = (s.token ≡ true) ⊎ Kept l s

  pub Kept-map :
      (l : Level) (s t : Site A)
      → (Handed s → Handed t)
      → (Flagged s → Flagged t)
      → (Flagged s → Dry s → Dry t)
      → (Flagged s → Open s → Open t)
      → Kept l s
      → Kept l t
  Kept-map unarmed s t hand flag dry opens k = tt
  Kept-map handed s t hand flag dry opens (h, k) = (hand h, tt)
  Kept-map flagged s t hand flag dry opens (h, f, k) = (hand h, flag f, tt)
  Kept-map emptied s t hand flag dry opens (h, f, d) = (hand h, flag f, dry f d)
  Kept-map asleep s t hand flag dry opens (h, f, o, d) = (hand h, flag f, opens f o, dry f d)

  pub Promise-map :
      (l : Level) (s t : Site A)
      → t.token ≡ s.token
      → (Kept l s → Kept l t)
      → Promise l s
      → Promise l t
  Promise-map l s t e keep (inl token) = inl (e ∙ token)
  Promise-map l s t e keep (inr kept) = inr (keep kept)

  -- A peer that is not about to take the handle leaves the flag to be seen.
  pub still_up :
      (s t : Site A) → t.park.parked ≡ s.park.parked → s.peer ≢ claiming → Flagged s → Flagged t
  still_up s t same not_claiming (inl up) = inl (same ∙ up)
  still_up s t same not_claiming (inr at) = absurd (not_claiming at)
