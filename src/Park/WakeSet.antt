-- ===== src/Park/WakeSet.antt =====
-- src/common/park.rs and src/common/park_overflow.rs: the park state of a side with many waiters. The
-- wake bitmap is a list of 64 tests; the overflow stack is the list of the threads registered, the
-- latest first. An operation returns the threads that it unparks beside the new state. Each runs
-- without a step of another thread inside it.
pub mod Bits
pub mod Interest
pub mod Preference
pub mod Reach
pub mod Delivery
pub mod Flush
pub mod Wakes
use quetzalcoatl.Common.{
  ℕ, zero, suc, ◌+◌, ◌%◌, Bool, true, false, Option, none, some, List, [], ◌∷◌, ◌++◌,
}
use quetzalcoatl.Common.Tests.{if◌then◌else◌}
use quetzalcoatl.Common.Lists.{get_elem?, set, replicate}
use quetzalcoatl.Park.ThreadParker
use quetzalcoatl.Park.ThreadParker.{Thread, ThreadParker}
use quetzalcoatl.Park.ParkRegistry.{ParkSlot, leased, shared, park_slots}

pub record WakeSet : Type 0 where
  pub bits : List Bool
  pub parkers : List ThreadParker
  pub cursor : ℕ
  pub overflow : List Thread

abbrev pub fresh : WakeSet
fresh = record {
  bits = replicate park_slots false;
  parkers = replicate park_slots ThreadParker.fresh;
  cursor = 0;
  overflow = [];
}

-- Bit `i` of a bitmap.
abbrev pub is_set : List Bool → ℕ → Bool
is_set [] i = false
is_set (b ∷ bs) zero = b
is_set (b ∷ bs) (suc i) = is_set bs i

-- The first slot at or after `from`, of the `n` next ones round the bitmap, that the test accepts:
-- `rotate_right` and `trailing_zeros`.
unfoldable pub search : (n : ℕ) → (from : ℕ) → (ℕ → Bool) → Option ℕ
search zero from test = none
search (suc n) from test =
    let rest = search n (suc from) test in
    if test (from % park_slots) then some (from % park_slots) else rest

abbrev pub next_set : (n : ℕ) → (from : ℕ) → List Bool → Option ℕ
next_set n from bits = search n from (is_set bits)

unfoldable pub drain_overflow : WakeSet → WakeSet × List Thread
drain_overflow w = (record w { overflow = [] }, w.overflow)

-- `parkers[bit].wake()`.
unfoldable pub wake_slot : ℕ → WakeSet → WakeSet × Option Thread
wake_slot bit w = elim (get_elem? w.parkers bit) [
  | none ↦ (w, none)
  | some p ↦
      let (p', thread) = ThreadParker.wake p in
      (record w { parkers = set w.parkers bit p' }, thread)
]

-- The clear of the bit found, the move of the cursor, and the wake of its slot.
unfoldable pub retire : ℕ → WakeSet → WakeSet × Option Thread
retire bit w = wake_slot bit (record w { bits = set w.bits bit false; cursor = suc bit })

-- The loop of `wake_one_published`, which looks from the cursor that it read at its start; `fuel` bounds
-- the bits that it retires.
unfoldable pub wake_loop : (fuel : ℕ) → (from : ℕ) → WakeSet → WakeSet × Option Thread
wake_loop zero from w = (w, none)
wake_loop (suc fuel) from w = elim (next_set park_slots from w.bits) [
  | none ↦ (w, none)
  | some bit ↦
      let (w', woken) = retire bit w in
      elim woken [ none ↦ wake_loop fuel from w' | some t ↦ (w', some t) ]
]

abbrev pub as_list : Option Thread → List Thread
as_list none = []
as_list (some t) = t ∷ []

-- One round more than there are bits.
unfoldable pub wake_one_published : WakeSet → WakeSet × List Thread
wake_one_published w =
    let (w', stacked) = drain_overflow w in
    let (w'', woken) = wake_loop (suc park_slots) w'.cursor w' in (w'', stacked ++ as_list woken)

-- The loop of `wake_n`, which looks from the cursor as it moves: `n` is the number still to wake.
unfoldable pub wake_n_loop : (fuel : ℕ) → (n : ℕ) → WakeSet → WakeSet × List Thread
wake_n_loop zero n w = (w, [])
wake_n_loop (suc fuel) zero w = (w, [])
wake_n_loop (suc fuel) (suc n) w = elim (next_set park_slots w.cursor w.bits) [
  | none ↦ (w, [])
  | some bit ↦
      let (w', woken) = retire bit w in
      elim woken [
        | none ↦ wake_n_loop fuel (suc n) w'
        | some t ↦ let (w'', ts) = wake_n_loop fuel n w' in (w'', t ∷ ts)
      ]
]

unfoldable pub wake_n : ℕ → WakeSet → WakeSet × List Thread
wake_n n w =
    let (w', stacked) = drain_overflow w in
    let (w'', woken) = wake_n_loop (suc park_slots) n w' in (w'', stacked ++ woken)

-- The loop of `flush`: the bits that were set when it began, the lowest first.
unfoldable pub flush_bits : (from : ℕ) → List Bool → WakeSet → WakeSet × List Thread
flush_bits from [] w = (w, [])
flush_bits from (false ∷ bs) w = flush_bits (suc from) bs w
flush_bits from (true ∷ bs) w =
    let (w', woken) = wake_slot from w in
    let (w'', ts) = flush_bits (suc from) bs w' in (w'', as_list woken ++ ts)

unfoldable pub flush : WakeSet → WakeSet × List Thread
flush w =
    let (w', stacked) = drain_overflow w in
    let (w'', woken) = flush_bits 0 w'.bits (record w' { bits = replicate park_slots false }) in
    (w'', stacked ++ woken)

unfoldable pub arm_handle : Thread → ℕ → WakeSet → WakeSet
arm_handle me bit w = elim (get_elem? w.parkers bit) [
  | none ↦ w
  | some p ↦ record w { parkers = set w.parkers bit (ThreadParker.arm me p) }
]

-- `me` is the thread that calls.
unfoldable pub arm : Thread → ParkSlot → WakeSet → WakeSet
arm me (leased bit) w = let w' = arm_handle me bit w in record w' { bits = set w'.bits bit true }
arm me shared w = record w { overflow = me ∷ w.overflow }

unfoldable pub disarm : ParkSlot → WakeSet → WakeSet
disarm (leased bit) w = record w { bits = set w.bits bit false }
disarm shared w = w

unfoldable pub is_armed : ParkSlot → WakeSet → Bool
is_armed (leased bit) w = elim (get_elem? w.parkers bit) [
  | none ↦ false
  | some p ↦ ThreadParker.is_armed p
]
is_armed shared w = false

-- `count_ones`.
unfoldable pub count : List Bool → ℕ
count [] = 0
count (true ∷ bs) = suc (count bs)
count (false ∷ bs) = count bs

unfoldable pub others_parked : ParkSlot → WakeSet → ℕ
others_parked (leased bit) w = count (set w.bits bit false)
others_parked shared w = count w.bits
