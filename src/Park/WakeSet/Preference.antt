-- ===== src/Park/WakeSet/Preference.antt =====
-- Which waiter the targeted wake of a park set prefers, with no step of another thread inside it.
use quetzalcoatl.Common.{
  ℕ, zero, suc, ◌<◌, ◌≡◌, ◌≢◌, ◌⊎◌, refl, ap, subst, ◌∙◌, inl, inr, Bool, true, false, ◌&&◌, Option,
  none, some, List, [], ◌∷◌, ◌++◌, append-nil, arith,
}
use quetzalcoatl.Common.Tests.{◌==◌, ==_iff, Bool-cases, Option-cases}
use quetzalcoatl.Common.Lists.{length, get_elem?}
use quetzalcoatl.Park.ThreadParker.{Thread}
use quetzalcoatl.Park.ParkRegistry.{park_slots}
use quetzalcoatl.Park.WakeSet.{WakeSet, is_set, count, retire, drain_overflow, as_list}
use quetzalcoatl.Park.WakeSet.Bits.{is_set-inside, count-le, search-found, search-none}
use quetzalcoatl.Park.WakeSet.Reach.{Reachable, Retired, retire-Retired}
use quetzalcoatl.Park.WakeSet.Delivery.{Retired-size, Retired-count}
use quetzalcoatl.Park.WakeSet.Interest.{
  WakeInterest, reserved, any, declines, same, next_matching, ranked_loop, wake_one_ranked,
  wake_one_interested,
}

same_self : (a : WakeInterest) → same a a ≡ true
same_self reserved = refl
same_self any = refl
same_self declines = refl

same_sound : (a b : WakeInterest) → same a b ≡ true → a ≡ b
same_sound reserved reserved e = refl
same_sound any any e = refl
same_sound declines declines e = refl
same_sound reserved any e = cc e
same_sound reserved declines e = cc e
same_sound any reserved e = cc e
same_sound any declines e = cc e
same_sound declines reserved e = cc e
same_sound declines any e = cc e

and_both : (a b : Bool) → (a && b) ≡ true → (a ≡ true) × (b ≡ true)
and_both true true e = (refl, refl)
and_both true false e = cc e
and_both false b e = cc e

module _ (interest : ℕ → WakeInterest) where
  -- What one pass over the waiters of one level does.
  record Served (level : WakeInterest) (w : WakeSet) (o : WakeSet × Option Thread) : Type 0 where
    only : (c : ℕ) (u : Thread) → Reachable o.0 c u → Reachable w c u
    kept : (c : ℕ) (u : Thread) → Reachable w c u → Reachable o.0 c u ⊎ (o.1 ≡ some u)
    choice :
        ((o.1 ≡ none) × ((c : ℕ) (u : Thread) → Reachable w c u → interest c ≢ level))
        ⊎ ((c : ℕ) × (u : Thread) × (o.1 ≡ some u) × Reachable w c u × (interest c ≡ level))
    stack : o.0.overflow ≡ w.overflow
    size : length o.0.bits ≡ park_slots

  nobody_matches :
      (level : WakeInterest) (w : WakeSet)
      → length w.bits ≡ park_slots
      → next_matching interest w.bits w.cursor level ≡ none
      → (c : ℕ) (u : Thread) → Reachable w c u
      → interest c ≢ level
  unfolding next_matching
  nobody_matches level w size e c u reach wants =
      let missed =
        search-none w.cursor (λ slot. is_set w.bits slot && same (interest slot) level) c e
          (omega (arith, is_set-inside w.bits c reach.bit)) in
      let hit : (is_set w.bits c && same (interest c) level) ≡ true =
        rw (reach.bit, wants) (same_self level) in
      cc (missed, hit)

  -- A bit retired with no waiter behind it changes nothing for the others.
  Served-stale :
      {level : WakeInterest} {slot : ℕ} {w : WakeSet} {r : WakeSet × Option Thread}
      {o : WakeSet × Option Thread}
      → Retired slot w r
      → ((u : Thread) → ¬ Reachable w slot u)
      → Served level r.0 o
      → Served level w o
  Served-stale {level} {slot} {w} {r} {o} d nobody k = record {
    only = λ c u reach. d.only c u (k.only c u reach);
    kept = λ c u reach. k.kept c u (moved c u reach);
    choice = elim k.choice [
      | inl (e, free) ↦ inl (e, λ c u reach. free c u (moved c u reach))
      | inr (c, u, e, reach, wants) ↦ inr (c, u, e, d.only c u reach, wants)
    ];
    stack = k.stack ∙ d.stack;
    size = k.size;
  }
    where
      moved : (c : ℕ) (u : Thread) → Reachable w c u → Reachable r.0 c u
      moved c u reach = d.others c u (λ e. nobody u (subst (λ c. Reachable w c u) e reach)) reach

  Served-woken :
      {level : WakeInterest} {slot : ℕ} {w : WakeSet} {r : WakeSet × Option Thread} {t : Thread}
      → Retired slot w r
      → length w.bits ≡ park_slots
      → Reachable w slot t
      → interest slot ≡ level
      → Served level w (r.0, some t)
  Served-woken {slot} {w} {t} d size there wants = record {
    only = d.only;
    kept = λ c u reach. elim (Bool-cases (c == slot)) [
      | inl here ↦
          inr (cc (reach.handle, there.handle, ap (get_elem? w.parkers) ((==_iff c slot).0 here)))
      | inr other ↦ inl (d.others c u (λ e. cc (other, (==_iff c slot).1 e)) reach)
    ];
    choice = inr (slot, t, refl, there, wants);
    stack = d.stack;
    size = Retired-size d size;
  }

  ranked_loop-Served :
      (fuel : ℕ) (level : WakeInterest) (w : WakeSet)
      → length w.bits ≡ park_slots
      → count w.bits < fuel
      → Served level w (ranked_loop interest fuel level w)
  unfolding ranked_loop next_matching
  ranked_loop-Served zero level w size lt = elim lt [ ]
  ranked_loop-Served (suc fuel) level w size lt =
      elim (Option-cases (next_matching interest w.bits w.cursor level)) [
        | inl e ↦
            rw (ranked_loop, e)
              (record {
                only = λ c u reach. reach;
                kept = λ c u reach. inl reach;
                choice = inl (refl, nobody_matches level w size e);
                stack = refl;
                size = size;
              })
        | inr (bit, e) ↦
            let (on, wants) = and_both (is_set w.bits bit) (same (interest bit) level) (
              search-found park_slots w.cursor
                (λ slot. is_set w.bits slot && same (interest slot) level) e) in
            let d = retire-Retired bit w on in
            elim d.target [
              | inl (stale, nobody) ↦
                  rw (ranked_loop, e, stale)
                    (Served-stale d nobody (
                      ranked_loop-Served fuel level (retire bit w).0 (Retired-size d size)
                        (Retired-count d on lt)))
              | inr (u, woken, there) ↦
                  rw (ranked_loop, e, woken)
                    (Served-woken d size there (same_sound (interest bit) level wants))
            ]
      ]

  -- What a targeted wake answers and leaves.
  pub record Prefers (w : WakeSet) (o : WakeSet × List Thread) : Type 0 where
    pub stack : o.0.overflow ≡ []
    pub kept :
        (c : ℕ) (u : Thread) → Reachable w c u → Reachable o.0 c u ⊎ (o.1 ≡ w.overflow ++ (u ∷ []))
    pub choice :
        ((o.1 ≡ w.overflow) × ((c : ℕ) (u : Thread) → Reachable w c u → interest c ≡ declines))
        ⊎ ((c : ℕ) × (u : Thread) × (o.1 ≡ w.overflow ++ (u ∷ []))
            × Reachable w c u
            × ((interest c ≡ reserved)
                ⊎ ((interest c ≡ any)
                    × ((c' : ℕ) (u' : Thread) → Reachable w c' u' → interest c' ≢ reserved))))

  left_over : (a : WakeInterest) → a ≢ reserved → a ≢ any → a ≡ declines
  left_over reserved nr na = absurd (nr refl)
  left_over any nr na = absurd (na refl)
  left_over declines nr na = refl

  abbrev emptied : WakeSet → WakeSet
  emptied w = record w { overflow = [] }

  Reachable-emptied :
      (w : WakeSet) (c : ℕ) (u : Thread) → Reachable w c u → Reachable (emptied w) c u
  Reachable-emptied w c u k = record { bit = k.bit; handle = k.handle }

  emptied-Reachable :
      (w : WakeSet) (c : ℕ) (u : Thread) → Reachable (emptied w) c u → Reachable w c u
  emptied-Reachable w c u k = record { bit = k.bit; handle = k.handle }

  -- The first pass found a waiter that reserved the position.
  first_pass-Prefers :
      (w : WakeSet) {o : WakeSet × Option Thread} {c : ℕ} {u : Thread}
      → Served reserved (emptied w) o
      → o.1 ≡ some u
      → Reachable (emptied w) c u
      → interest c ≡ reserved
      → Prefers w (o.0, w.overflow ++ (u ∷ []))
  first_pass-Prefers w {o} {c} {u} k e reach wants = record {
    stack = k.stack;
    kept = λ c' u' r. elim (k.kept c' u' (Reachable-emptied w c' u' r)) [
      | inl still ↦ inl still
      | inr woken ↦
          let who : u ≡ u' = cc (e, woken) in inr (ap (λ (u : Thread). w.overflow ++ (u ∷ [])) who)
    ];
    choice = inr (c, u, refl, emptied-Reachable w c u reach, inl wants);
  }

  -- The second pass, after a first one that woke nobody.
  second_pass-Prefers :
      (w : WakeSet) {o₁ o₂ : WakeSet × Option Thread}
      → Served reserved (emptied w) o₁
      → o₁.1 ≡ none
      → ((c : ℕ) (u : Thread) → Reachable (emptied w) c u → interest c ≢ reserved)
      → Served any o₁.0 o₂
      → Prefers w (o₂.0, w.overflow ++ as_list o₂.1)
  second_pass-Prefers w {o₁} {o₂} k₁ e nobody k₂ = record {
    stack = k₂.stack ∙ k₁.stack;
    kept = λ c u r. elim (k₂.kept c u (passed c u r)) [
      | inl still ↦ inl still
      | inr woken ↦ inr (ap (λ (o : Option Thread). w.overflow ++ as_list o) woken)
    ];
    choice = elim k₂.choice [
      | inl (quiet, free) ↦ inl (
        ap (λ (o : Option Thread). w.overflow ++ as_list o) quiet ∙ append-nil w.overflow,
        λ c u r.
            left_over (interest c) (nobody c u (Reachable-emptied w c u r))
              (free c u (passed c u r)),
      )
      | inr (c, u, woken, there, wants) ↦ inr (
        c,
        u,
        ap (λ (o : Option Thread). w.overflow ++ as_list o) woken,
        emptied-Reachable w c u (k₁.only c u there),
        inr (wants, λ c' u' r. nobody c' u' (Reachable-emptied w c' u' r)),
      )
    ];
  }
    where
      passed : (c : ℕ) (u : Thread) → Reachable w c u → Reachable o₁.0 c u
      passed c u r = elim (k₁.kept c u (Reachable-emptied w c u r)) [
        | inl still ↦ still
        | inr woken ↦ cc (e, woken)
      ]

  -- With no step of another thread inside it, a targeted wake unparks every thread of the overflow stack
  -- and then at most one waiter that has a slot: one that reserved the position if there is one, else
  -- one that can use any, else none. It wakes no waiter that declines, and every other waiter stays
  -- reachable.
  pub wake_one_interested-Prefers :
      (w : WakeSet) → length w.bits ≡ park_slots → Prefers w (wake_one_interested interest w)
  unfolding wake_one_interested wake_one_ranked drain_overflow
  wake_one_interested-Prefers w size =
      let full = suc park_slots in
      let k₁ = ranked_loop-Served full reserved (emptied w) size (omega (arith, count-le w.bits)) in
      let w₁ = (ranked_loop interest full reserved (emptied w)).0 in
      let k₂ = ranked_loop-Served full any w₁ k₁.size (omega (arith, count-le w₁.bits, k₁.size)) in
      elim k₁.choice [
        | inl (quiet, nobody) ↦
            rw (wake_one_interested, quiet) (second_pass-Prefers w k₁ quiet nobody k₂)
        | inr (c, u, woken, there, wants) ↦
            rw (wake_one_interested, woken) (first_pass-Prefers w k₁ woken there wants)
      ]
