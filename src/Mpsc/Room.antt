-- ===== src/Mpsc/Room.antt =====
-- src/mpsc/producer.rs: what the test for room in `claim_slot` answers, for positions below 2^63.
use quetzalcoatl.Common.{ℕ, ◌+◌, ◌^◌, ◌≤◌, ◌<◌, ◌≡◌, ◌⊎◌, ◌↔◌, true, arith}
use quetzalcoatl.Capacity
use quetzalcoatl.Capacity.{IsValid}
use quetzalcoatl.Capacity.Lap.{cap_pos, cap-le}
use quetzalcoatl.Mpsc.Ring.{RingBuffer, Producer}
use quetzalcoatl.Mpsc.Producer.{check_room}

module _ {ℓ} {A : Type ℓ} where
  -- For a tail that was loaded before the head was, and positions below `2 ^ 63`, `claim_slot` goes on
  -- to the swap exactly if the tail is within one lap of the cached head, or of the head without being
  -- behind it; otherwise it answers that the ring is full. So a tail that the head has passed since it
  -- was loaded is refused once the cached head is a lap old, whatever the ring holds.
  pub check_room_iff :
      (tail : ℕ) (p : Producer) (r : RingBuffer A)
      → IsValid r.capacity
      → p.cached_head ≤ tail
      → tail < 2 ^ 63
      → r.cursors.head < 2 ^ 63
      → ((check_room tail p r).0 ≡ true)
        ↔ (tail < p.cached_head + r.capacity.cap)
          ⊎ ((r.cursors.head ≤ tail) × (tail < r.cursors.head + r.capacity.cap))
  unfolding check_room Capacity.get
  check_room_iff tail p r v low small small_head =
      (λ e. ground (arith, cap-le v, cap_pos v), λ e. ground (arith, cap-le v, cap_pos v))
