-- ===== src/Mpmc/Lap.antt =====
-- A lap of a consumer's scan that claims nothing looks at every slot, and ends.
use native.Mathlib.Decide.{dec_lt}
use quetzalcoatl.Common.{
  ℕ, zero, suc, ◌+◌, ◌-◌, ◌^◌, ◌≤◌, ◌<◌, ◌≡◌, ◌≢◌, ◌⊎◌, some, refl, ap, inl, inr, Bool, true, false,
  List, arith,
}
use quetzalcoatl.Common.Tests.{leb, Bool-cases}
use quetzalcoatl.Common.Lists.{length, get_elem?}
use quetzalcoatl.Mpmc.ScanBudget.{
  ScanBudget, new, record_, probes_are_spent, resume_sweep_when_probes_are_spent, step,
  skip_contended, exhausted, move, lap,
}

-- What a move keeps: out of probes, the scan is at the floor.
record Sweeping (b : ScanBudget) : Type 0 where
  pub floor_le : b.floor ≤ b.end
  pub end_small : b.end < 2 ^ 64
  pub spent_small : b.spent < 2 ^ 63
  pub limit_small : b.probe_limit + b.probe_limit < 2 ^ 63
  pub sweep : (b.spent < b.probe_limit) ⊎ (b.position ≡ b.floor)

move-fields :
    (c : Bool) (b : ScanBudget)
    → Sweeping b
    → b.floor < b.end
    → b.spent < 2 ^ 63 - 1
    → let b' = move c b in
      (b'.end ≡ b.end)
      × (b'.probe_limit ≡ b.probe_limit)
      × (b'.spent ≡ suc b.spent)
      × (((b.position ≡ b.floor) × (b'.floor ≡ suc b.floor))
          ⊎ ((b.position ≢ b.floor) × (b'.floor ≡ b.floor)))
      × ((b'.spent < b'.probe_limit) ⊎ (b'.position ≡ b'.floor))
unfolding move step skip_contended record_ probes_are_spent resume_sweep_when_probes_are_spent
move-fields true b k lt small = ground arith
move-fields false b k lt small = ground arith

abbrev Among : ℕ → List ℕ → Type 0
Among p seen = (i : ℕ) × (get_elem? seen i ≡ some p)

-- The probes that the lap may still take.
abbrev left : ScanBudget → ℕ
left b = (b.probe_limit - b.spent) + (b.end - b.floor)

-- The floor moves only past the position that is looked at.
abbrev Floors : (position floor floor' : ℕ) → Type 0
Floors position floor floor' =
    ((position ≡ floor) × (floor' ≡ suc floor)) ⊎ ((position ≢ floor) × (floor' ≡ floor))

looked_at :
    (position floor floor' p : ℕ)
    → Floors position floor floor'
    → floor ≤ p
    → p < floor'
    → position ≡ p
looked_at position floor floor' p (inl (e, e')) from to = omega arith
looked_at position floor floor' p (inr (ne, e')) from to = let out : ⊥ = omega arith in absurd out

left-less :
    (b b' : ScanBudget) (fuel : ℕ)
    → Sweeping b
    → b.floor < b.end
    → b'.end ≡ b.end
    → b'.probe_limit ≡ b.probe_limit
    → b'.spent ≡ suc b.spent
    → Floors b.position b.floor b'.floor
    → left b ≤ suc fuel
    → left b' ≤ fuel
left-less b b' fuel k lt end limit spent (inl (e, e')) enough =
    omega (arith, lt, end, limit, spent, e', enough)
left-less b b' fuel k lt end limit spent (inr (ne, e')) enough = elim k.sweep [
  | inl more ↦ omega (arith, lt, end, limit, spent, e', enough, more)
  | inr at ↦ absurd (ne at)
]

abbrev Covers : ScanBudget → ℕ → List ℕ × Bool → Type 0
Covers b fuel result =
    (result.1 ≡ true)
    × ((p : ℕ) → b.floor ≤ p → p < b.end → Among p result.0)
    × (length result.0 ≤ fuel)

lap-Covers :
    (contended : ℕ → ℕ → Bool) (fuel : ℕ) (b : ScanBudget)
    → Sweeping b
    → b.floor < b.end
    → b.spent + fuel < 2 ^ 63
    → left b ≤ fuel
    → Covers b fuel (lap contended fuel b)
unfolding lap exhausted
lap-Covers contended zero b k lt small enough = let out : ⊥ = omega arith in absurd out
lap-Covers contended (suc fuel) b k lt small enough =
    let b' = move (contended b.spent b.position) b in
    let (end, limit, spent, floors, sweep) =
      move-fields (contended b.spent b.position) b k lt (omega arith) in
    elim (Bool-cases (leb b'.end b'.floor)) [
      | inl over ↦
          let done : b'.end ≤ b'.floor = ground arith in
          rw over (
            refl,
            λ p from to. (
              0,
              ap some
                  (looked_at b.position b.floor b'.floor p floors from (omega (arith, done, end))),
            ),
            omega arith,
          )
      | inr more ↦
          let going : b'.floor < b'.end = ground arith in
          let kept : Sweeping b' = record {
            floor_le = omega (arith, going);
            end_small = omega (arith, end, k.end_small);
            spent_small = omega (arith, spent, small);
            limit_small = omega (arith, limit, k.limit_small);
            sweep = sweep;
          } in
          let (ended, seen, bound) =
            lap-Covers contended fuel b' kept going (omega (arith, spent))
              (left-less b b' fuel k lt end limit spent floors enough) in
          rw more (
            ended,
            λ p from to. elim (dec_lt p b'.floor) [
              | yes below ↦ (0, ap some (looked_at b.position b.floor b'.floor p floors from below))
              | no above ↦ let (i, e) = seen p (omega arith) (omega (arith, end)) in (suc i, e)
            ],
            omega (arith, bound),
          )
    ]

-- Whatever slots peers are first at, a lap over a ring that claims nothing ends after at most twice as
-- many probes as the ring has slots, and looks at every position from its start to a lap further, each
-- slot of the ring once at least. The ring has a slot and less than `2 ^ 61`, and the lap ends below
-- `2 ^ 64`.
pub lap-covers :
    (contended : ℕ → ℕ → Bool) (start capacity cas_skip : ℕ)
    → 0 < capacity
    → capacity < 2 ^ 61
    → start + capacity < 2 ^ 64
    → let (seen, over) = lap contended (capacity + capacity) (new start capacity cas_skip) in
      (over ≡ true)
      × ((p : ℕ) → start ≤ p → p < start + capacity → (i : ℕ) × (get_elem? seen i ≡ some p))
      × (length seen ≤ capacity + capacity)
unfolding new
lap-covers contended start capacity cas_skip pos small near =
    let b = new start capacity cas_skip in
    let last : b.end ≡ start + capacity = omega arith in
    let (over, seen, bound) =
      lap-Covers contended (capacity + capacity) b
        (record {
          floor_le = omega (arith, last);
          end_small = omega (arith, last);
          spent_small = omega arith;
          limit_small = omega arith;
          sweep = inl pos;
        })
        (omega (arith, last)) (omega arith) (omega (arith, last)) in
    (over, λ p from to. seen p from (omega (arith, last)), bound)
