-- ===== src/Spsc/Frame.antt =====
-- No operation of the spsc handles changes the capacity of the ring.
use quetzalcoatl.Common.{ℕ, ◌≡◌, Option, some, arith}
use quetzalcoatl.Spsc.Ring.{
  RingBuffer, Spsc, write_slot, take_slot, publish_tail, publish_head, wake_consumer, wake_producer,
  note_unpark,
}
use quetzalcoatl.Spsc.Producer.{
  PushResult, SlotWriter, WrittenSlot, push, try_claim, set_cached_head, publish, reserve, write,
  commit, drop_if_uncommitted,
}
use quetzalcoatl.Spsc.Consumer.{
  SlotReader, pop, pop_at, available, set_cached_tail, release, pop_ref, drop_reader,
  drop_publisher, advance,
}

module _ {ℓ} {A : Type ℓ} where
  pub write_slot-capacity :
      (pos : ℕ) (v : A) (r : RingBuffer A) {r' : RingBuffer A}
      → write_slot pos v r ≡ some r'
      → r'.capacity ≡ r.capacity
  unfolding write_slot
  write_slot-capacity pos v r e = ground arith

  pub push-capacity :
      (v : A) (s : Spsc A) {reply : PushResult A} {s' : Spsc A}
      → push v s ≡ some (reply, s')
      → s'.ring.capacity ≡ s.ring.capacity
  unfolding push try_claim set_cached_head write_slot publish publish_tail wake_consumer note_unpark
  push-capacity v s e = ground arith

  pub pop-capacity :
      (s : Spsc A) {reply : Option A} {s' : Spsc A}
      → pop s ≡ some (reply, s')
      → s'.ring.capacity ≡ s.ring.capacity
  unfolding pop pop_at available set_cached_tail take_slot release publish_head wake_producer
      note_unpark
  pop-capacity s e = ground arith

  pub reserve-capacity :
      (s : Spsc A) {w : Option SlotWriter} {s' : Spsc A}
      → reserve s ≡ (w, s')
      → s'.ring.capacity ≡ s.ring.capacity
  unfolding reserve try_claim set_cached_head
  reserve-capacity s e = ground arith

  pub write-capacity :
      (w : SlotWriter) (v : A) (s : Spsc A) {k : WrittenSlot} {s' : Spsc A}
      → write w v s ≡ some (k, s')
      → s'.ring.capacity ≡ s.ring.capacity
  unfolding write write_slot
  write-capacity w v s e = ground arith

  pub commit-capacity :
      (w : WrittenSlot) (s : Spsc A) {s' : Spsc A}
      → commit w s ≡ some s'
      → s'.ring.capacity ≡ s.ring.capacity
  unfolding commit drop_if_uncommitted publish publish_tail wake_consumer note_unpark
  commit-capacity w s e = ground arith

  pub drop-capacity :
      (w : WrittenSlot) (s : Spsc A) {dropped : Option A} {s' : Spsc A}
      → drop_if_uncommitted w s ≡ some (dropped, s')
      → s'.ring.capacity ≡ s.ring.capacity
  unfolding drop_if_uncommitted take_slot
  drop-capacity w s e = ground arith

  pub pop_ref-capacity :
      (s : Spsc A) {w : Option SlotReader} {s' : Spsc A}
      → pop_ref s ≡ (w, s')
      → s'.ring.capacity ≡ s.ring.capacity
  unfolding pop_ref available set_cached_tail
  pop_ref-capacity s e = ground arith

  pub drop_reader-capacity :
      (w : SlotReader) (s : Spsc A) {v : A} {s' : Spsc A}
      → drop_reader w s ≡ some (v, s')
      → s'.ring.capacity ≡ s.ring.capacity
  unfolding drop_reader drop_publisher advance take_slot release publish_head wake_producer
      note_unpark
  drop_reader-capacity w s e = ground arith
