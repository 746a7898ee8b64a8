-- ===== src/Mpmc/ScanBudget.antt =====
-- src/mpmc/scan_budget.rs: where a consumer's scan of the ring looks next, and when its lap is over.
use quetzalcoatl.Common.{ℕ, zero, suc, ◌-◌, Bool, true, false, not, ◌&&◌, List, [], ◌∷◌}
use quetzalcoatl.Common.Tests.{leb, ◌==◌, if◌then◌else◌}
use quetzalcoatl.Common.Words.{add_usize}

pub record ScanBudget : Type 0 where
  pub position : ℕ
  pub floor : ℕ
  pub end : ℕ
  pub spent : ℕ
  pub probe_limit : ℕ
  pub cas_skip : ℕ

unfoldable pub new : (start capacity cas_skip : ℕ) → ScanBudget
new start capacity cas_skip = record {
  position = start;
  floor = start;
  end = add_usize start capacity;
  spent = 0;
  probe_limit = capacity;
  cas_skip = if leb capacity cas_skip then capacity - 1 else cas_skip;
}

unfoldable pub record_ : ScanBudget → ScanBudget
record_ b = record b {
  floor = if b.position == b.floor then add_usize b.floor 1 else b.floor;
  spent = add_usize b.spent 1;
}

unfoldable pub probes_are_spent : ScanBudget → Bool
probes_are_spent b = leb b.probe_limit b.spent

unfoldable pub resume_sweep_when_probes_are_spent : ScanBudget → ScanBudget
resume_sweep_when_probes_are_spent b =
    if probes_are_spent b && not (b.position == b.floor) then record b { position = b.floor } else b

unfoldable pub step : ScanBudget → ScanBudget
step b =
    let b' = record_ b in
    resume_sweep_when_probes_are_spent (record b' { position = add_usize b'.position 1 })

unfoldable pub skip_contended : ScanBudget → ScanBudget
skip_contended b =
    let b' = record_ b in
    resume_sweep_when_probes_are_spent (record b' {
      position =
          if probes_are_spent b'
          then add_usize b'.position 1
          else add_usize b'.position b'.cas_skip;
    })

unfoldable pub exhausted : ScanBudget → Bool
exhausted b = leb b.end b.floor

-- One round of the loop of `Consumer::claim_slot` that claims nothing: the slot at the position was not
-- published, or a peer claimed it first.
unfoldable pub move : (contended : Bool) → ScanBudget → ScanBudget
move true b = skip_contended b
move false b = step b

-- The positions that a lap examines, when it claims nothing: `contended` tells for each probe and position
-- whether a peer is first there. `fuel` bounds the probes; whether the lap was over is the answer.
unfoldable pub lap : (contended : ℕ → ℕ → Bool) → (fuel : ℕ) → ScanBudget → List ℕ × Bool
lap contended zero b = ([], false)
lap contended (suc fuel) b =
    let b' = move (contended b.spent b.position) b in
    let (rest, over) = lap contended fuel b' in
    if exhausted b' then (b.position ∷ [], true) else (b.position ∷ rest, over)
