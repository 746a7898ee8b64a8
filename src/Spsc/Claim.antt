-- ===== src/Spsc/Claim.antt =====
-- `try_claim`, whatever the rest of the ring is doing: the head is published at position `base`, and the
-- next item goes to position `last`.
use quetzalcoatl.Common.{ℕ, ◌+◌, ◌≤◌, ◌<◌, ◌≡◌, inl, inr, none, some, arith}
use quetzalcoatl.Common.Tests.{leb, if◌then◌else◌, Bool-cases}
use quetzalcoatl.Common.Words.{word, sub_usize}
use quetzalcoatl.Capacity
use quetzalcoatl.Capacity.{IsValid}
use quetzalcoatl.Capacity.Lap.{cap-le}
use quetzalcoatl.Spsc.Ring.{Spsc}
use quetzalcoatl.Spsc.Producer.{set_cached_head, try_claim}
use quetzalcoatl.Spsc.Repr.{Writes}

module _ {ℓ} {A : Type ℓ} where
  pub try_claim-ring : (s : Spsc A) → (try_claim s).1.ring ≡ s.ring
  unfolding try_claim set_cached_head Capacity.get
  try_claim-ring s = ground arith

  pub try_claim-consumer : (s : Spsc A) → (try_claim s).1.consumer ≡ s.consumer
  unfolding try_claim set_cached_head Capacity.get
  try_claim-consumer s = ground arith

  try_claim-producer :
      (s : Spsc A)
      → (try_claim s).1.producer ≡ (
          if leb s.ring.capacity.cap (sub_usize s.producer.write_pos s.producer.cached_head)
          then record { write_pos = s.producer.write_pos; cached_head = s.ring.cursors.head }
          else s.producer)
  unfolding try_claim set_cached_head Capacity.get
  try_claim-producer s = ground arith

module _ {ℓ} {A : Type ℓ} (s : Spsc A) {base last : ℕ} (valid : IsValid s.ring.capacity)
    (w : Writes s.producer s.ring.capacity.cap base last)
    (head_at : s.ring.cursors.head ≡ word base) (le : base ≤ last) where
  pub try_claim-granted :
      last < base + s.ring.capacity.cap → (try_claim s).0 ≡ some (s.producer.write_pos)
  unfolding try_claim set_cached_head Capacity.get
  try_claim-granted room = ground (arith, cap-le valid)

  pub try_claim-refused : last ≡ base + s.ring.capacity.cap → (try_claim s).0 ≡ none
  unfolding try_claim set_cached_head Capacity.get
  try_claim-refused full = ground (arith, cap-le valid)

  -- The cells after a claim; after one that is granted there is room for the next position.
  pub try_claim-Writes :
      (w' : Writes (try_claim s).1.producer s.ring.capacity.cap base last) × (last
          < base + s.ring.capacity.cap
        → last < w'.seen_head + s.ring.capacity.cap)
  try_claim-Writes =
      rw try_claim-producer
        (elim (Bool-cases
          (leb s.ring.capacity.cap (sub_usize s.producer.write_pos s.producer.cached_head))) [
            | inl stale ↦ rw stale (
              record {
                seen_head = base;
                write_at = w.write_at;
                cached_at = head_at;
                old = omega arith;
                room = omega (arith, w.room, w.old);
              },
              λ room. room,
            )
            | inr current ↦ rw current (w, λ room. ground (arith, cap-le valid))
          ])
