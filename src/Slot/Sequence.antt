-- ===== src/Slot/Sequence.antt =====
-- src/common/slot_sequence.rs and src/common/seq_slot.rs: the sequence word of an mpsc slot, and the slot.
use quetzalcoatl.Common.{ℕ, ◌-◌, ◌^◌, ◌<◌, ◌≡◌, Bool, false, Option, none, some, arith}
use quetzalcoatl.Common.Tests.{◌==◌, if◌then◌else◌}
use quetzalcoatl.Common.Words.{add_usize, mul_usize}
use quetzalcoatl.Capacity
use quetzalcoatl.Capacity.{Capacity}

abbrev pub tombstone_word : ℕ
tombstone_word = 2 ^ 64 - 1

pub record SlotSequence : Type 0 where
  pub at : ℕ

pub data SlotSnapshot {ℓ} (D : Type ℓ) : Type ℓ where
  ready : D → SlotSnapshot D
  tombstoned : SlotSnapshot D
  not_ready : SlotSnapshot D

unfoldable pub free_at : ℕ → SlotSequence
free_at pos = record { at = mul_usize pos 2 }

unfoldable pub publish : ℕ → SlotSequence → SlotSequence
publish pos s = record s { at = add_usize (mul_usize pos 2) 1 }

unfoldable pub tombstone : SlotSequence → SlotSequence
tombstone s = record s { at = tombstone_word }

unfoldable pub release : ℕ → Capacity → SlotSequence → SlotSequence
release head c s = record s { at = mul_usize (add_usize head (Capacity.get c)) 2 }

module _ {ℓ} {D : Type ℓ} where
  -- `data` is the storage that the word guards.
  unfoldable pub classify : SlotSequence → D → ℕ → SlotSnapshot D
  classify s data_ pos =
      if s.at == tombstone_word
      then tombstoned
      else (if s.at == add_usize (mul_usize pos 2) 1 then ready data_ else not_ready)

unfoldable pub holds_value_at : SlotSequence → ℕ → Bool
holds_value_at s pos = s.at == add_usize (mul_usize pos 2) 1

pub record SeqSlot {ℓ} (A : Type ℓ) : Type ℓ where
  pub storage : Option A
  pub sequence : SlotSequence

module _ {ℓ} {A : Type ℓ} where
  unfoldable pub slot_free_at : ℕ → SeqSlot A
  slot_free_at pos = record { storage = none; sequence = free_at pos }

  unfoldable pub slot_classify : SeqSlot A → ℕ → SlotSnapshot (Option A)
  slot_classify s pos = classify s.sequence s.storage pos

  -- The values dropped, and the slot; none where a slot without a value would be dropped.
  unfoldable pub drop_value_at : SeqSlot A → ℕ → Option (Option A × SeqSlot A)
  drop_value_at s pos =
      if holds_value_at s.sequence pos
      then elim s.storage [ none ↦ none | some v ↦ some (some v, record s { storage = none }) ]
      else some (none, s)

  -- Positions that a ring can reach are below half of `usize`. For two such positions, the word stored
  -- by a publication reads as a value at its own position only; a tombstone reads as a tombstone and
  -- as no value at every position; a free word and one released for the next lap read as nothing yet.
  classify_lem :
      (p q : ℕ) (c : Capacity) (s : SlotSequence) (storage : A)
      → p < 2 ^ 63 - 1
      → q < 2 ^ 63 - 1
      → (classify (publish p s) storage q ≡ (if p == q then ready storage else not_ready))
        × (holds_value_at (publish p s) q ≡ (p == q))
        × (classify (tombstone s) storage q ≡ tombstoned)
        × (holds_value_at (tombstone s) q ≡ false)
        × (classify (free_at p) storage q ≡ not_ready)
        × (classify (release p c s) storage q ≡ not_ready)
  unfolding classify holds_value_at publish tombstone free_at release Capacity.get
  classify_lem p q c s storage small_p small_q =
      (ground arith, ground arith, ground arith, ground arith, ground arith, ground arith)

  -- A slot that was free, written and published at a position drops its value when asked at that
  -- position, and is left alone when asked at another one.
  drop_value_at_lem :
      (p q : ℕ) (v : A) (s : SeqSlot A)
      → p < 2 ^ 63 - 1
      → q < 2 ^ 63 - 1
      → s.storage ≡ some v
      → s.sequence ≡ publish p (free_at p)
      → drop_value_at s q
        ≡ (if p == q then some (some v, record s { storage = none }) else some (none, s))
  unfolding drop_value_at holds_value_at publish free_at
  drop_value_at_lem p q v s small_p small_q held published = ground arith
