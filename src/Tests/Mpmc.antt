-- ===== src/Tests/Mpmc.antt =====
-- The theorems on the parts of the mpmc ring at concrete inputs.
use quetzalcoatl.Common.{ℕ, ◌+◌, ◌≤◌, ◌<◌, ◌≡◌, true, some, [], ◌∷◌, arith}
use quetzalcoatl.Common.Lists.{length, get_elem?}
use quetzalcoatl.Mpmc.ScanBudget.{lap, new}
use quetzalcoatl.Mpmc.Lap.{lap-covers}
use quetzalcoatl.Mpmc.Watermark.{tallied, popped, flushed, no_pops, fresh, tallied-pops}

-- A ring of 4 slots whose every slot a peer is first at, with a jump of 128.
lap-covers_example :
    let (seen, over) = lap (λ spent position. true) 8 (new 5 4 128) in
    (over ≡ true)
    × ((p : ℕ) → 5 ≤ p → p < 9 → (i : ℕ) × (get_elem? seen i ≡ some p))
    × (length seen ≤ 8)
lap-covers_example =
    lap-covers (λ spent position. true) 5 4 128 (omega arith) (omega arith) (omega arith)

-- Three pops with a flush interval of 2, and the flush of a drop.
tallied-pops_example :
    let (t', w') = tallied 2 (popped ∷ popped ∷ popped ∷ flushed ∷ []) no_pops fresh in
    (t'.pending + w'.count ≡ 3) × (t'.pending < 2)
tallied-pops_example =
    tallied-pops 2 (popped ∷ popped ∷ popped ∷ flushed ∷ []) no_pops fresh (omega arith)
      (omega arith)
