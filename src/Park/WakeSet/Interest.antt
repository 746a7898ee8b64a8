-- ===== src/Park/WakeSet/Interest.antt =====
-- src/common/wake_interest.rs, and the targeted wake of src/common/park.rs.
use quetzalcoatl.Common.{ℕ, zero, suc, Bool, true, false, ◌&&◌, Option, none, some, List, ◌++◌}
use quetzalcoatl.Park.ThreadParker.{Thread}
use quetzalcoatl.Park.ParkRegistry.{park_slots}
use quetzalcoatl.Park.WakeSet.{WakeSet, search, is_set, retire, drain_overflow, as_list}

pub data WakeInterest : Type 0 where
  reserved any declines : WakeInterest

abbrev pub rank : WakeInterest → ℕ
rank reserved = 0
rank any = 1
rank declines = 2

abbrev pub is_usable : WakeInterest → Bool
is_usable reserved = true
is_usable any = true
is_usable declines = false

-- `==`, which the source derives.
abbrev pub same : WakeInterest → WakeInterest → Bool
same reserved reserved = true
same any any = true
same declines declines = true
same a b = false

-- The callback that says what the waiter at a slot can do with the release.
module _ (interest : ℕ → WakeInterest) where
  unfoldable pub next_matching : List Bool → (from : ℕ) → WakeInterest → Option ℕ
  next_matching bits from level =
      search park_slots from (λ slot. is_set bits slot && same (interest slot) level)

  -- `wake_one_ranked`; `fuel` bounds the bits that it retires.
  unfoldable pub ranked_loop : (fuel : ℕ) → WakeInterest → WakeSet → WakeSet × Option Thread
  ranked_loop zero level w = (w, none)
  ranked_loop (suc fuel) level w = elim (next_matching w.bits w.cursor level) [
    | none ↦ (w, none)
    | some bit ↦
        let (w', woken) = retire bit w in
        elim woken [ none ↦ ranked_loop fuel level w' | some t ↦ (w', some t) ]
  ]

  unfoldable pub wake_one_ranked : WakeInterest → WakeSet → WakeSet × Option Thread
  wake_one_ranked level w = ranked_loop (suc park_slots) level w

  unfoldable pub wake_one_interested : WakeSet → WakeSet × List Thread
  wake_one_interested w =
      let (w₀, stacked) = drain_overflow w in
      let (w₁, first) = wake_one_ranked reserved w₀ in
      let (w₂, second) = wake_one_ranked any w₁ in
      elim first [
        | none ↦ (w₂, stacked ++ as_list second)
        | some t ↦ (w₁, stacked ++ as_list (some t))
      ]
