-- ===== src/Tests/Slots.antt =====
-- The theorem on the slot words of the mpmc ring at a concrete input.
use quetzalcoatl.Common.{◌≡◌, refl, false, arith}
use quetzalcoatl.Capacity.Laws.{of_exponent, of_exponent-IsValid}
use quetzalcoatl.Slot.Ready
use quetzalcoatl.Slot.Ready.{ReadyWord, free, published, claimed, state, state_lem}

abbrev free_five : ReadyWord
free_five = record { at = 5 }

state_lem_example :
    (state free_five 1 (of_exponent 2) ≡ free 5)
    × (state (Ready.publish 5 free_five) 1 (of_exponent 2) ≡ published 5)
    × (state (Ready.abandon 5 free_five) 1 (of_exponent 2) ≡ claimed 5)
    × (Ready.claim 9 (Ready.publish 5 free_five) ≡ (false, Ready.publish 5 free_five))
    × (Ready.claim 9 free_five ≡ (false, free_five))
    × (Ready.claim 9 (Ready.abandon 5 free_five) ≡ (false, Ready.abandon 5 free_five))
state_lem_example = state_lem (of_exponent-IsValid 2 (omega arith)) 5 9 (omega arith) refl
