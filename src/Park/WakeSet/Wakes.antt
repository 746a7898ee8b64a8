-- ===== src/Park/WakeSet/Wakes.antt =====
-- What the wakes of a park set deliver, with no step of another thread inside a wake.
use quetzalcoatl.Common.{ℕ, suc, ◌≤◌, ◌≡◌, ◌⊎◌, refl, ap, subst, inr, false, List, [], ◌++◌, arith}
use mathlib.Core.List.{Memᴰ}
use quetzalcoatl.Common.Lists.{replicate, length}
use quetzalcoatl.Park.ThreadParker.{Thread}
use quetzalcoatl.Park.ParkRegistry.{park_slots}
use quetzalcoatl.Park.WakeSet.{
  WakeSet, is_set, drain_overflow, wake_one_published, wake_n, flush_bits, flush,
}
use quetzalcoatl.Park.WakeSet.Bits.{count-le}
use quetzalcoatl.Park.WakeSet.Reach.{Reachable}
use quetzalcoatl.Park.WakeSet.Delivery.{Woke, wake_loop-Woke, wake_n_loop-Woke}
use quetzalcoatl.Park.WakeSet.Flush.{Armed, flush_bits-Flushed, is_set-replicate}

-- What a wake that asks for `n` unparks leaves and answers: the threads registered on the overflow
-- stack, and then threads of waiters with a slot.
pub record Delivers (n : ℕ) (w : WakeSet) (o : WakeSet × List Thread) : Type 0 where
  pub woken : List Thread
  pub answer : o.1 ≡ w.overflow ++ woken
  pub stack : o.0.overflow ≡ []
  pub at_most : length woken ≤ n
  pub enough : (length woken ≡ n) ⊎ ((c : ℕ) (u : Thread) → ¬ Reachable o.0 c u)
  pub kept : (c : ℕ) (u : Thread) → Reachable w c u → Reachable o.0 c u ⊎ Memᴰ u woken
  pub real : (u : Thread) → Memᴰ u woken → (c : ℕ) × Reachable w c u

Woke-Delivers :
    {n : ℕ} (w : WakeSet) {o : WakeSet × List Thread}
    → Woke n (record w { overflow = [] }) o
    → Delivers n w (o.0, w.overflow ++ o.1)
Woke-Delivers w {o} k = record {
  woken = o.1;
  answer = refl;
  stack = k.stack;
  at_most = k.at_most;
  enough = k.enough;
  kept = λ c u reach. k.kept c u (record { bit = reach.bit; handle = reach.handle });
  real =
      λ u m. let (c, reach) = k.real u m in (c, record { bit = reach.bit; handle = reach.handle });
}

flush-nobody : (w : WakeSet) (c : ℕ) (u : Thread) → ¬ Reachable (flush w).0 c u
unfolding flush drain_overflow
flush-nobody w c u reach =
    let cleared = record w { bits = replicate park_slots false; overflow = [] } in
    cc (
      reach.bit,
      ap (λ b. is_set b c) (flush_bits-Flushed 0 w.bits cleared).bits,
      is_set-replicate park_slots c,
    )

flush-Delivers : (w : WakeSet) → length w.bits ≡ park_slots → Delivers park_slots w (flush w)
unfolding flush drain_overflow
flush-Delivers w size =
    let cleared = record w { bits = replicate park_slots false; overflow = [] } in
    let k = flush_bits-Flushed 0 w.bits cleared in
    record {
      woken = (flush_bits 0 w.bits cleared).1;
      answer = refl;
      stack = k.stack;
      at_most = omega (arith, k.short, count-le w.bits, size);
      enough = inr (flush-nobody w);
      kept = λ c u reach.
          inr (k.kept c u reach.bit (subst (λ i. Armed w.parkers i u) (omega arith) reach.handle));
      real = λ u m.
          let (c, on, at) = k.real u m in
          (c, record { bit = on; handle = subst (λ i. Armed w.parkers i u) (omega arith) at });
    }

wake_one_published-Delivers :
    (w : WakeSet) → length w.bits ≡ park_slots → Delivers 1 w (wake_one_published w)
unfolding wake_one_published drain_overflow
wake_one_published-Delivers w size = Woke-Delivers w (
    wake_loop-Woke (suc park_slots) w.cursor (record w { overflow = [] }) size
      (omega (arith, count-le w.bits)))

wake_n-Delivers : (n : ℕ) (w : WakeSet) → length w.bits ≡ park_slots → Delivers n w (wake_n n w)
unfolding wake_n drain_overflow
wake_n-Delivers n w size = Woke-Delivers w (
    wake_n_loop-Woke (suc park_slots) n (record w { overflow = [] }) size
      (omega (arith, count-le w.bits)))

-- With no step of another thread inside it, a wake of a park set unparks every thread of the overflow
-- stack, and then waiters that have a slot, each with its bit set and its handle armed: as many as it
-- asks for, one, `n` or all, unless none is left. A stale bit is not counted, the waiters passed over
-- stay reachable, and a flush leaves none.
pub wakes-Deliver :
    (n : ℕ) (w : WakeSet)
    → length w.bits ≡ park_slots
    → Delivers 1 w (wake_one_published w)
      × Delivers n w (wake_n n w)
      × Delivers park_slots w (flush w)
      × ((c : ℕ) (u : Thread) → ¬ Reachable (flush w).0 c u)
wakes-Deliver n w size = (
  wake_one_published-Delivers w size,
  wake_n-Delivers n w size,
  flush-Delivers w size,
  flush-nobody w,
)
