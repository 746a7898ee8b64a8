-- ===== src/Sync/Backoff.antt =====
-- src/common/backoff.rs: the counter behind the spin schedule. `spin` returns the number of pauses
-- and whether it yields beside the new counter.
use native.Mathlib.Nat.{pow-le-pow_right}
use quetzalcoatl.Common.{ℕ, zero, suc, ◌+◌, ◌-◌, ◌^◌, ◌≤◌, ◌<◌, ◌≡◌, min, Bool, true, false, arith}
use quetzalcoatl.Common.Tests.{ltb, leb, if◌then◌else◌}

abbrev pub park_threshold : ℕ
park_threshold = 12

abbrev pub spin_cap : ℕ
spin_cap = 6

abbrev pub counter_cap : ℕ
counter_cap = 12

abbrev pub yield_from : ℕ
yield_from = 8

pub record Backoff : Type 0 where
  pub failures : ℕ

abbrev pub fresh : Backoff
fresh = record { failures = 0 }

unfoldable pub reset : Backoff → Backoff
reset b = record b { failures = 0 }

unfoldable pub is_exhausted : Backoff → Bool
is_exhausted b = leb park_threshold b.failures

-- `saturating_add(1)` on a `u32`.
abbrev saturating_suc : ℕ → ℕ
saturating_suc n = min (n + 1) (2 ^ 32 - 1)

unfoldable pub pauses : Backoff → ℕ
pauses b = if ltb 1 b.failures then 2 ^ min b.failures spin_cap else 0

unfoldable pub yields : Backoff → Bool
yields b = leb yield_from b.failures

unfoldable pub spin : Backoff → Backoff
spin b = record b { failures = min (saturating_suc b.failures) counter_cap }

unfoldable pub spin_unless_exhausted : Backoff → Backoff × Bool
unfolding is_exhausted spin
spin_unless_exhausted b = if is_exhausted b then (b, false) else (spin b, true)

-- The calls of `spin_unless_exhausted` that report `true` before the first that reports `false`, with
-- the counter at the end; `fuel` bounds the calls.
unfoldable pub spins : (fuel : ℕ) → Backoff → ℕ × Backoff
unfolding spin_unless_exhausted
spins zero b = (0, b)
spins (suc fuel) b =
    let (b', more) = spin_unless_exhausted b in
    elim more [ true ↦ let (n, last) = spins fuel b' in (suc n, last) | false ↦ (0, b') ]

-- From any counter within its cap the gate reports `true` exactly as many times as the counter is below
-- the cap; it then reports `false`, with the counter at the cap.
pub spins-count :
    (n fuel : ℕ)
    → n ≤ counter_cap
    → counter_cap - n < fuel
    → spins fuel (record { failures = n }) ≡ (counter_cap - n, record { failures = counter_cap })
unfolding spins
spins-count n zero h f = elim f [ ]
spins-count n (suc fuel) h f = ground (arith, spins-count (n + 1) fuel)

-- No call of `spin` pauses more than 64 times.
pauses-le : (b : Backoff) → pauses b ≤ 64
unfolding pauses
pauses-le b = ground (arith, pow-le-pow_right {n = 2} (omega arith) {i = min b.failures 6} {j = 6})
