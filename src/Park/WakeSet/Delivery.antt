-- ===== src/Park/WakeSet/Delivery.antt =====
-- Which waiters the loops of the wakes reach, and that their fuel is enough.
use quetzalcoatl.Common.{
  ℕ, zero, suc, ◌≤◌, ◌<◌, ◌≡◌, ◌⊎◌, refl, sym, ap, subst, ◌∙◌, inl, inr, true, false, Option, none,
  some, List, [], ◌∷◌, arith,
}
use mathlib.Core.List.{Memᴰ}
use mathlib.Core.List.Memᴰ
use quetzalcoatl.Common.Tests.{◌==◌, ==_iff, Bool-cases, Option-cases}
use quetzalcoatl.Common.Lists.{length, get_elem?, length-set}
use quetzalcoatl.Park.ThreadParker.{Thread}
use quetzalcoatl.Park.ParkRegistry.{park_slots}
use quetzalcoatl.Park.WakeSet.{
  WakeSet, next_set, is_set, count, retire, wake_loop, as_list, wake_n_loop,
}
use quetzalcoatl.Park.WakeSet.Bits.{is_set-inside, count-clear, search-found, search-none}
use quetzalcoatl.Park.WakeSet.Reach.{Reachable, Retired, retire-Retired}

-- What at most `n` unparks, of the threads listed, do to the waiters.
pub record Woke (n : ℕ) (w : WakeSet) (o : WakeSet × List Thread) : Type 0 where
  pub at_most : length o.1 ≤ n
  pub enough : (length o.1 ≡ n) ⊎ ((c : ℕ) (u : Thread) → ¬ Reachable o.0 c u)
  pub kept : (c : ℕ) (u : Thread) → Reachable w c u → Reachable o.0 c u ⊎ Memᴰ u o.1
  pub real : (u : Thread) → Memᴰ u o.1 → (c : ℕ) × Reachable w c u
  pub stack : o.0.overflow ≡ w.overflow

Woke-nobody : (n : ℕ) (w : WakeSet) → ((c : ℕ) (u : Thread) → ¬ Reachable w c u) → Woke n w (w, [])
Woke-nobody n w none_left = record {
  at_most = omega arith;
  enough = inr none_left;
  kept = λ c u k. inl k;
  real = λ u m. absurd (Memᴰ.not-nil m);
  stack = refl;
}

Woke-zero : (w : WakeSet) → Woke 0 w (w, [])
Woke-zero w = record {
  at_most = omega arith;
  enough = inl refl;
  kept = λ c u k. inl k;
  real = λ u m. absurd (Memᴰ.not-nil m);
  stack = refl;
}

-- A bit retired with no waiter behind it is not counted.
Woke-skip :
    {n slot : ℕ} {w : WakeSet} {r : WakeSet × Option Thread} {o : WakeSet × List Thread}
    → Retired slot w r
    → r.1 ≡ none
    → Woke n r.0 o
    → Woke n w o
Woke-skip {slot} {w} {r} {o} d stale k = record {
  at_most = k.at_most;
  enough = k.enough;
  kept = λ c u reach.
      k.kept c u (d.others c u (λ e. empty u (subst (λ c. Reachable w c u) e reach)) reach);
  real = λ u m. let (c, reach) = k.real u m in (c, d.only c u reach);
  stack = k.stack ∙ d.stack;
}
  where
    empty : (u : Thread) → ¬ Reachable w slot u
    empty u reach = elim d.target [
      | inl (e, nobody) ↦ nobody u reach
      | inr (v, e, there) ↦ cc (e, stale)
    ]

Woke-take :
    {n slot : ℕ} {w : WakeSet} {r : WakeSet × Option Thread} {o : WakeSet × List Thread}
    {t : Thread}
    → Retired slot w r
    → r.1 ≡ some t
    → Woke n r.0 o
    → Woke (suc n) w (o.0, t ∷ o.1)
Woke-take {slot} {w} {r} {o} {t} d woken k = record {
  at_most = omega (arith, k.at_most);
  enough = elim k.enough [ inl e ↦ inl (ap suc e) | inr nobody ↦ inr nobody ];
  kept = λ c u reach. elim (Bool-cases (c == slot)) [
    | inl same ↦ inr (Memᴰ.head (owner c u ((==_iff c slot).0 same) reach))
    | inr other ↦ elim (k.kept c u (d.others c u (λ e. cc (other, (==_iff c slot).1 e)) reach)) [
      | inl still ↦ inl still
      | inr later ↦ inr (Memᴰ.tail later)
    ]
  ];
  real = λ u m. elim (Memᴰ.cases_cons m) [
    | inl here ↦ (slot, subst (Reachable w slot) (sym here) mine)
    | inr later ↦ let (c, reach) = k.real u later in (c, d.only c u reach)
  ];
  stack = k.stack ∙ d.stack;
}
  where
    mine : Reachable w slot t
    mine = elim d.target [
      | inl (e, nobody) ↦ absurd (cc (e, woken))
      | inr (v, e, there) ↦ subst (Reachable w slot) (cc (e, woken)) there
    ]

    owner : (c : ℕ) (u : Thread) → c ≡ slot → Reachable w c u → u ≡ t
    owner c u e reach = cc (reach.handle, mine.handle, ap (get_elem? w.parkers) e)

-- A bitmap whose search finds nothing has no waiter.
nobody_left :
    (w : WakeSet) (from : ℕ)
    → length w.bits ≡ park_slots
    → next_set park_slots from w.bits ≡ none
    → (c : ℕ) (u : Thread) → ¬ Reachable w c u
nobody_left w from size e c u k =
    cc (k.bit, search-none from (is_set w.bits) c e (omega (arith, is_set-inside w.bits c k.bit)))

pub Retired-size :
    {slot : ℕ} {w : WakeSet} {r : WakeSet × Option Thread}
    → Retired slot w r
    → length w.bits ≡ park_slots
    → length r.0.bits ≡ park_slots
Retired-size {slot} {w} d size = ap length d.bits ∙ length-set w.bits slot false ∙ size

pub Retired-count :
    {slot fuel : ℕ} {w : WakeSet} {r : WakeSet × Option Thread}
    → Retired slot w r
    → is_set w.bits slot ≡ true
    → count w.bits < suc fuel
    → count r.0.bits < fuel
Retired-count {slot} {w} {r} d on lt = omega (arith, ap count d.bits, count-clear w.bits slot on)

pub wake_loop-Woke :
    (fuel from : ℕ) (w : WakeSet)
    → length w.bits ≡ park_slots
    → count w.bits < fuel
    → let o = wake_loop fuel from w in Woke 1 w (o.0, as_list o.1)
unfolding wake_loop
wake_loop-Woke zero from w size lt = elim lt [ ]
wake_loop-Woke (suc fuel) from w size lt = elim (Option-cases (next_set park_slots from w.bits)) [
  | inl e ↦ rw (wake_loop, e) (Woke-nobody 1 w (nobody_left w from size e))
  | inr (bit, e) ↦
      let on = search-found park_slots from (is_set w.bits) e in
      let d = retire-Retired bit w on in
      elim d.target [
        | inl (stale, nobody) ↦
            rw (wake_loop, e, stale)
              (Woke-skip d stale (
                wake_loop-Woke fuel from (retire bit w).0 (Retired-size d size)
                  (Retired-count d on lt)))
        | inr (u, woken, there) ↦
            rw (wake_loop, e, woken) (Woke-take d woken (Woke-zero (retire bit w).0))
      ]
]

pub wake_n_loop-Woke :
    (fuel n : ℕ) (w : WakeSet)
    → length w.bits ≡ park_slots
    → count w.bits < fuel
    → Woke n w (wake_n_loop fuel n w)
unfolding wake_n_loop
wake_n_loop-Woke zero n w size lt = elim lt [ ]
wake_n_loop-Woke (suc fuel) zero w size lt = Woke-zero w
wake_n_loop-Woke (suc fuel) (suc n) w size lt =
    elim (Option-cases (next_set park_slots w.cursor w.bits)) [
      | inl e ↦ rw (wake_n_loop, e) (Woke-nobody (suc n) w (nobody_left w w.cursor size e))
      | inr (bit, e) ↦
          let on = search-found park_slots w.cursor (is_set w.bits) e in
          let d = retire-Retired bit w on in
          elim d.target [
            | inl (stale, nobody) ↦
                rw (wake_n_loop, e, stale)
                  (Woke-skip d stale (
                    wake_n_loop-Woke fuel (suc n) (retire bit w).0 (Retired-size d size)
                      (Retired-count d on lt)))
            | inr (u, woken, there) ↦
                rw (wake_n_loop, e, woken)
                  (Woke-take d woken (
                    wake_n_loop-Woke fuel n (retire bit w).0 (Retired-size d size)
                      (Retired-count d on lt)))
          ]
    ]
