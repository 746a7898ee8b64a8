-- ===== src/Park/ParkRegistry.antt =====
-- src/common/park_registry.rs: the leases of the 64 park slots of one side. The bitmap is a list of 64
-- tests, the bit of slot `i` at index `i`. A loop around a compare-and-swap is the swap that wins.
pub mod Leases
use quetzalcoatl.Common.{ℕ, zero, suc, Bool, true, false, Option, none, some, List, [], ◌∷◌}
use quetzalcoatl.Common.Tests.{ltb, if◌then◌else◌}
use quetzalcoatl.Common.Lists.{set, replicate}

abbrev pub park_slots : ℕ
park_slots = 64

pub data ParkSlot : Type 0 where
  leased : ℕ → ParkSlot
  shared : ParkSlot

-- `Leased(0)`, the slot of a side with one endpoint.
abbrev pub sole : ParkSlot
sole = leased 0

unfoldable pub from_exclusive_index : ℕ → ParkSlot
from_exclusive_index index = if ltb index park_slots then leased index else shared

unfoldable pub index : ParkSlot → Option ℕ
index (leased bit) = some bit
index shared = none

unfoldable pub is_leased : ParkSlot → Bool
is_leased (leased bit) = true
is_leased shared = false

abbrev pub later : Option ℕ → Option ℕ
later none = none
later (some i) = some (suc i)

-- `trailing_zeros` of the complement: the index of the first bit that is not set.
unfoldable pub first_clear : List Bool → Option ℕ
first_clear [] = none
first_clear (false ∷ bs) = some 0
first_clear (true ∷ bs) = later (first_clear bs)

pub record ParkRegistry : Type 0 where
  pub held : List Bool

abbrev pub fresh : ParkRegistry
fresh = record { held = replicate park_slots false }

unfoldable pub lease : ParkRegistry → ParkSlot × ParkRegistry
lease g = elim (first_clear g.held) [
  | none ↦ (shared, g)
  | some bit ↦ (leased bit, record { held = set g.held bit true })
]

unfoldable pub release : ParkSlot → ParkRegistry → ParkRegistry
release (leased bit) g = record { held = set g.held bit false }
release shared g = g
