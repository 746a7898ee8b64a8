-- ===== src/Park/WakeSet/Flush.antt =====
-- What the loop of `flush` wakes.
use quetzalcoatl.Common.{
  ℕ, zero, suc, ◌+◌, ◌≤◌, ◌≡◌, ◌≢◌, ◌⊎◌, refl, sym, ap, subst, ◌∙◌, inl, inr, Bool, true, false,
  Option, none, some, List, [], ◌∷◌, ◌++◌, arith,
}
use mathlib.Core.List.{Memᴰ}
use mathlib.Core.List.Memᴰ
use quetzalcoatl.Common.Tests.{Option-cases}
use quetzalcoatl.Common.Lists.{replicate, length, get_elem?, get_elem?-set_ne}
use quetzalcoatl.Park.ThreadParker
use quetzalcoatl.Park.ThreadParker.{Thread, ThreadParker}
use quetzalcoatl.Park.WakeSet.{WakeSet, is_set, count, wake_slot, as_list, flush_bits}
use quetzalcoatl.Park.WakeSet.Reach.{armed_at}

abbrev pub Armed : List ThreadParker → ℕ → Thread → Type 0
Armed parkers c u = get_elem? parkers c ≡ some (record { handle = some u })

-- The wake of a slot whose bit is already cleared.
record Rung (slot : ℕ) (w : WakeSet) (o : WakeSet × Option Thread) : Type 0 where
  bits : o.0.bits ≡ w.bits
  stack : o.0.overflow ≡ w.overflow
  others : (c : ℕ) → c ≢ slot → get_elem? o.0.parkers c ≡ get_elem? w.parkers c
  target :
      ((o.1 ≡ none) × ((u : Thread) → ¬ Armed w.parkers slot u))
      ⊎ ((u : Thread) × (o.1 ≡ some u) × Armed w.parkers slot u)

wake_slot-Rung : (slot : ℕ) (w : WakeSet) → Rung slot w (wake_slot slot w)
unfolding wake_slot ThreadParker.wake
wake_slot-Rung slot w = elim (Option-cases (get_elem? w.parkers slot)) [
  | inl out ↦
      rw (wake_slot, out)
        (record {
          bits = refl;
          stack = refl;
          others = λ c ne. refl;
          target = inl (refl, λ u e. cc (out, e));
        })
  | inr (p, at) ↦ elim (Option-cases p.handle) [
    | inl free ↦
        rw (wake_slot, at, ThreadParker.wake, free)
          (record {
            bits = refl;
            stack = refl;
            others = λ c ne. get_elem?-set_ne w.parkers p (λ e. ne (sym e));
            target = inl (refl, λ u e. cc (armed_at w.parkers slot none at free, e));
          })
    | inr (u, armed) ↦
        rw (wake_slot, at, ThreadParker.wake, armed)
          (record {
            bits = refl;
            stack = refl;
            others =
                λ c ne. get_elem?-set_ne w.parkers (record p { handle = none }) (λ e. ne (sym e));
            target = inr (u, refl, armed_at w.parkers slot (some u) at armed);
          })
  ]
]

pub record Flushed (from : ℕ) (bs : List Bool) (w : WakeSet) (o : WakeSet × List Thread)
    : Type 0 where
  pub bits : o.0.bits ≡ w.bits
  pub stack : o.0.overflow ≡ w.overflow
  pub short : length o.1 ≤ count bs
  pub kept : (i : ℕ) (u : Thread) → is_set bs i ≡ true → Armed w.parkers (from + i) u → Memᴰ u o.1
  pub real :
      (u : Thread) → Memᴰ u o.1 → (i : ℕ) × (is_set bs i ≡ true) × Armed w.parkers (from + i) u

Flushed-skip :
    (from : ℕ) (bs : List Bool) (w : WakeSet) {o : WakeSet × List Thread}
    → Flushed (suc from) bs w o
    → Flushed from (false ∷ bs) w o
unfolding count
Flushed-skip from bs w {o} k = record {
  bits = k.bits;
  stack = k.stack;
  short = k.short;
  kept = kept;
  real = λ u m.
      let (i, on, at) = k.real u m in
      (suc i, on, subst (λ i. Armed w.parkers i u) (omega arith) at);
}
  where
    kept :
        (i : ℕ) (u : Thread)
        → is_set (false ∷ bs) i ≡ true
        → Armed w.parkers (from + i) u
        → Memᴰ u o.1
    kept zero u on at = cc on
    kept (suc i) u on at = k.kept i u on (subst (λ i. Armed w.parkers i u) (omega arith) at)

-- The later slots, whose parkers the first wake left alone.
Flushed-kept :
    (from : ℕ) (bs : List Bool) (w : WakeSet) {r : WakeSet × Option Thread}
    {o : WakeSet × List Thread}
    → Rung from w r
    → Flushed (suc from) bs r.0 o
    → (i : ℕ) (u : Thread) → is_set bs i ≡ true
    → Armed w.parkers (from + suc i) u
    → Memᴰ u o.1
Flushed-kept from bs w {r} {o} d k i u on at =
    let next : from + suc i ≡ suc from + i = omega arith in
    k.kept i u on (d.others (suc from + i) (omega arith) ∙ subst (λ i. Armed w.parkers i u) next at)

Flushed-real :
    (from : ℕ) (bs : List Bool) (w : WakeSet) {r : WakeSet × Option Thread}
    {o : WakeSet × List Thread}
    → Rung from w r
    → Flushed (suc from) bs r.0 o
    → (u : Thread) → Memᴰ u o.1
    → (i : ℕ) × (is_set (true ∷ bs) i ≡ true) × Armed w.parkers (from + i) u
Flushed-real from bs w {r} d k u m =
    let (i, on, at) = k.real u m in
    let next : suc from + i ≡ from + suc i = omega arith in
    (
      suc i,
      on,
      subst (λ i. Armed w.parkers i u) next (sym (d.others (suc from + i) (omega arith)) ∙ at),
    )

Flushed-nobody :
    (from : ℕ) (bs : List Bool) (w : WakeSet) {r : WakeSet × Option Thread}
    {o : WakeSet × List Thread}
    → Rung from w r
    → ((u : Thread) → ¬ Armed w.parkers from u)
    → Flushed (suc from) bs r.0 o
    → Flushed from (true ∷ bs) w o
unfolding count
Flushed-nobody from bs w {o} d nobody k = record {
  bits = k.bits ∙ d.bits;
  stack = k.stack ∙ d.stack;
  short = omega (arith, k.short);
  kept = kept;
  real = Flushed-real from bs w d k;
}
  where
    kept :
        (i : ℕ) (u : Thread)
        → is_set (true ∷ bs) i ≡ true
        → Armed w.parkers (from + i) u
        → Memᴰ u o.1
    kept zero u on at = absurd (nobody u (subst (λ i. Armed w.parkers i u) (omega arith) at))
    kept (suc i) u on at = Flushed-kept from bs w d k i u on at

Flushed-take :
    (from : ℕ) (bs : List Bool) (w : WakeSet) {t : Thread} {r : WakeSet × Option Thread}
    {o : WakeSet × List Thread}
    → Rung from w r
    → Armed w.parkers from t
    → Flushed (suc from) bs r.0 o
    → Flushed from (true ∷ bs) w (o.0, t ∷ o.1)
unfolding count
Flushed-take from bs w {t} {o} d armed k = record {
  bits = k.bits ∙ d.bits;
  stack = k.stack ∙ d.stack;
  short = omega (arith, k.short);
  kept = kept;
  real = λ u m. elim (Memᴰ.cases_cons m) [
    | inl here ↦
        let first : from ≡ from + 0 = omega arith in
        (
          0,
          refl,
          subst (λ i. Armed w.parkers i u) first (subst (Armed w.parkers from) (sym here) armed),
        )
    | inr later ↦ Flushed-real from bs w d k u later
  ];
}
  where
    kept :
        (i : ℕ) (u : Thread)
        → is_set (true ∷ bs) i ≡ true
        → Armed w.parkers (from + i) u
        → Memᴰ u (t ∷ o.1)
    kept zero u on at =
        let first : from + 0 ≡ from = omega arith in
        Memᴰ.head (cc (at, armed, ap (get_elem? w.parkers) first))
    kept (suc i) u on at = Memᴰ.tail (Flushed-kept from bs w d k i u on at)

pub flush_bits-Flushed :
    (from : ℕ) (bs : List Bool) (w : WakeSet) → Flushed from bs w (flush_bits from bs w)
unfolding flush_bits count
flush_bits-Flushed from [] w = record {
  bits = refl;
  stack = refl;
  short = omega arith;
  kept = λ i u on at. cc on;
  real = λ u m. absurd (Memᴰ.not-nil m);
}
flush_bits-Flushed from (false ∷ bs) w = Flushed-skip from bs w (flush_bits-Flushed (suc from) bs w)
flush_bits-Flushed from (true ∷ bs) w =
    let d = wake_slot-Rung from w in
    let k = flush_bits-Flushed (suc from) bs (wake_slot from w).0 in
    let o = flush_bits (suc from) bs (wake_slot from w).0 in
    elim d.target [
      | inl (e, nobody) ↦
          subst (λ x. Flushed from (true ∷ bs) w (o.0, as_list x ++ o.1)) (sym e)
            (Flushed-nobody from bs w d nobody k)
      | inr (t, e, armed) ↦
          subst (λ x. Flushed from (true ∷ bs) w (o.0, as_list x ++ o.1)) (sym e)
            (Flushed-take from bs w d armed k)
    ]

pub is_set-replicate : (n i : ℕ) → is_set (replicate n false) i ≡ false
is_set-replicate zero i = refl
is_set-replicate (suc n) zero = refl
is_set-replicate (suc n) (suc i) = is_set-replicate n i
