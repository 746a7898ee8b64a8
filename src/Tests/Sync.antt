-- ===== src/Tests/Sync.antt =====
-- The theorems on capacities, counts and the backoff at concrete inputs.
use quetzalcoatl.Common.{ℕ, ◌+◌, ◌-◌, ◌^◌, ◌≤◌, ◌<◌, ◌≡◌, ◌≢◌, true, some, [], ◌∷◌, arith}
use quetzalcoatl.Common.Words.{word, add_usize}
use quetzalcoatl.Capacity.{Capacity, IsValid, index_of, at_least}
use quetzalcoatl.Capacity.Laws.{
  of_exponent, of_exponent-IsValid, slotless, at_least-bounds, at_least-overflow,
}
use quetzalcoatl.Capacity.Lap.{index_of_lap}
use quetzalcoatl.Sync.EndpointCount.{
  cloned, dropped, done, clone, drop, lasts, only_final_last, counting, lasts-only_final,
}
use quetzalcoatl.Sync.Backoff
use quetzalcoatl.Sync.Backoff.{Backoff, spins, spins-count}

at_least-bounds_example :
    (c : Capacity) × (at_least 5 ≡ some c) × IsValid c × (5 ≤ c.cap) × (c.cap < 10)
at_least-bounds_example = at_least-bounds 5 (omega arith) (omega arith)

at_least-overflow_example :
    (at_least (2 ^ 63 + 1) ≡ some slotless)
    × ((pos : ℕ) → pos < 2 ^ 64 → index_of slotless pos ≡ pos)
at_least-overflow_example = at_least-overflow (2 ^ 63 + 1) (omega arith) (omega arith)

lasts-only_final_example :
    only_final_last (lasts (counting 1) (cloned ∷ dropped ∷ dropped ∷ [])) ≡ true
lasts-only_final_example =
    lasts-only_final (clone (omega arith) (drop (drop done))) (omega arith) (omega arith)

spins-count_example : spins 20 Backoff.fresh ≡ (12, record { failures = 12 })
spins-count_example = spins-count 0 20 (omega arith) (omega arith)

index_of_lap_example :
    (index_of (of_exponent 1) (word (2 ^ 64 - 1)) < 2)
    × (index_of (of_exponent 1) (word (2 ^ 64 - 1)) ≢ index_of (of_exponent 1) (word (2 ^ 64)))
    × (index_of (of_exponent 1) (add_usize (word (2 ^ 64 - 1)) 2)
        ≡ index_of (of_exponent 1) (word (2 ^ 64 - 1)))
index_of_lap_example =
    index_of_lap (of_exponent-IsValid 1 (omega arith)) (2 ^ 64 - 1) (2 ^ 64) (omega arith)
      (omega arith)
