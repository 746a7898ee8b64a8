-- ===== src/Park/WakeSet/Reach.antt =====
-- Which waiter the wake of one slot of a park set takes.
use quetzalcoatl.Common.{
  ℕ, suc, ◌≡◌, ◌≢◌, ◌⊎◌, refl, sym, ap, ◌∙◌, inl, inr, true, false, Option, none, some, List,
}
use quetzalcoatl.Common.Tests.{Option-cases}
use quetzalcoatl.Common.Lists.{get_elem?, set, get_elem?-set_ne}
use quetzalcoatl.Park.ThreadParker
use quetzalcoatl.Park.ThreadParker.{Thread, ThreadParker}
use quetzalcoatl.Park.WakeSet.{WakeSet, is_set, wake_slot, retire}
use quetzalcoatl.Park.WakeSet.Bits.{is_set-set_ne, is_set-clear}

-- A waiter that a wake of its slot would unpark: its bit is set and its handle is armed.
pub record Reachable (w : WakeSet) (slot : ℕ) (me : Thread) : Type 0 where
  pub bit : is_set w.bits slot ≡ true
  pub handle : get_elem? w.parkers slot ≡ some (record { handle = some me })

-- A wake of one slot takes the waiter of that slot, if there is one, and no other.
pub record Retired (slot : ℕ) (w : WakeSet) (o : WakeSet × Option Thread) : Type 0 where
  pub bits : o.0.bits ≡ set w.bits slot false
  pub stack : o.0.overflow ≡ w.overflow
  pub only : (c : ℕ) (u : Thread) → Reachable o.0 c u → Reachable w c u
  pub others : (c : ℕ) (u : Thread) → c ≢ slot → Reachable w c u → Reachable o.0 c u
  pub target :
      ((o.1 ≡ none) × ((u : Thread) → ¬ Reachable w slot u))
      ⊎ ((u : Thread) × (o.1 ≡ some u) × Reachable w slot u)

pub armed_at :
    (parkers : List ThreadParker) (slot : ℕ) {p : ThreadParker} (o : Option Thread)
    → get_elem? parkers slot ≡ some p
    → p.handle ≡ o
    → get_elem? parkers slot ≡ some (record { handle = o })
armed_at parkers slot o at h =
    at ∙ ap (λ (o : Option Thread). let p : ThreadParker = record { handle = o } in some p) h

cleared-Reachable :
    (slot : ℕ) (w : WakeSet) (c : ℕ) (u : Thread) (p : List ThreadParker) (cursor : ℕ)
    → c ≢ slot
    → get_elem? p c ≡ get_elem? w.parkers c
    → Reachable w c u
    → Reachable (record w { bits = set w.bits slot false; parkers = p; cursor = cursor }) c u
cleared-Reachable slot w c u p cursor ne same k = record {
  bit = is_set-set_ne w.bits false (λ e. ne (sym e)) ∙ k.bit;
  handle = same ∙ k.handle;
}

cleared-ne : (slot : ℕ) (w : WakeSet) (c : ℕ) → is_set (set w.bits slot false) c ≡ true → c ≢ slot
cleared-ne slot w c on e = cc (on, ap (is_set (set w.bits slot false)) e, is_set-clear w.bits slot)

restored :
    (slot : ℕ) (w : WakeSet) (c : ℕ) (u : Thread) (p : ThreadParker)
    → Reachable
        (record w {
          bits = set w.bits slot false;
          parkers = set w.parkers slot p;
          cursor = suc slot;
        })
        c
        u
    → Reachable w c u
restored slot w c u p k =
    let ne = cleared-ne slot w c k.bit in
    record {
      bit = sym (is_set-set_ne w.bits false (λ e. ne (sym e))) ∙ k.bit;
      handle = sym (get_elem?-set_ne w.parkers p (λ e. ne (sym e))) ∙ k.handle;
    }

pub retire-Retired :
    (slot : ℕ) (w : WakeSet) → is_set w.bits slot ≡ true → Retired slot w (retire slot w)
unfolding retire wake_slot ThreadParker.wake
retire-Retired slot w on = elim (Option-cases (get_elem? w.parkers slot)) [
  | inl out ↦
      rw (retire, wake_slot, out)
        (record {
          bits = refl;
          stack = refl;
          only = λ c u k.
              let ne = cleared-ne slot w c k.bit in
              record {
                bit = sym (is_set-set_ne w.bits false (λ e. ne (sym e))) ∙ k.bit;
                handle = k.handle;
              };
          others = λ c u ne k. cleared-Reachable slot w c u w.parkers (suc slot) ne refl k;
          target = inl (refl, λ u k. cc (out, k.handle));
        })
  | inr (p, at) ↦ elim (Option-cases p.handle) [
    | inl free ↦
        rw (retire, wake_slot, at, ThreadParker.wake, free)
          (record {
            bits = refl;
            stack = refl;
            only = λ c u k. restored slot w c u p k;
            others = λ c u ne k.
                cleared-Reachable slot w c u (set w.parkers slot p) (suc slot) ne
                  (get_elem?-set_ne w.parkers p (λ e. ne (sym e))) k;
            target = inl (refl, λ u k. cc (armed_at w.parkers slot none at free, k.handle));
          })
    | inr (u, armed) ↦
        rw (retire, wake_slot, at, ThreadParker.wake, armed)
          (record {
            bits = refl;
            stack = refl;
            only = λ c u k. restored slot w c u (record p { handle = none }) k;
            others = λ c u ne k.
                cleared-Reachable slot w c u (set w.parkers slot (record p { handle = none }))
                  (suc slot) ne (get_elem?-set_ne w.parkers _ (λ e. ne (sym e))) k;
            target =
                inr (
                  u,
                  refl,
                  record { bit = on; handle = armed_at w.parkers slot (some u) at armed },
                );
          })
  ]
]
