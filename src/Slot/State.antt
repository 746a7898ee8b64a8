-- ===== src/Slot/State.antt =====
-- src/broadcast/slot_state.rs: the sequence word of a broadcast slot.
use quetzalcoatl.Common.{ℕ, ◌-◌, ◌/◌, ◌%◌, ◌^◌, ◌<◌, ◌≡◌, refl, inl, inr, Bool, true, false, arith}
use quetzalcoatl.Common.Tests.{◌==◌, if◌then◌else◌, Bool-cases, ==_iff}
use quetzalcoatl.Common.Words.{add_usize, mul_usize, sub_usize}
use quetzalcoatl.Slot.Sequence.{SlotSnapshot, ready, tombstoned, not_ready}

pub data SlotState : Type 0 where
  vacant : SlotState
  published : ℕ → SlotState
  abandoned : ℕ → SlotState

pub record SequenceWord : Type 0 where
  pub at : ℕ

abbrev pub vacant_word : ℕ
vacant_word = 0

unfoldable pub published_word : ℕ → ℕ
published_word pos = add_usize (mul_usize pos 2) 1

unfoldable pub abandoned_word : ℕ → ℕ
abandoned_word pos = add_usize (mul_usize pos 2) 2

unfoldable pub decode : ℕ → SlotState
decode w =
    if w == vacant_word
    then vacant
    else (if w % 2 == 1 then published (sub_usize w 1 / 2) else abandoned (sub_usize w 2 / 2))

unfoldable pub holds_value : SlotState → Bool
holds_value vacant = false
holds_value (published pos) = true
holds_value (abandoned pos) = false

unfoldable pub fresh : SequenceWord
fresh = record { at = vacant_word }

unfoldable pub publish : ℕ → SequenceWord → SequenceWord
publish pos s = record s { at = published_word pos }

unfoldable pub abandon : ℕ → SequenceWord → SequenceWord
abandon pos s = record s { at = abandoned_word pos }

unfoldable pub claim_taking_previous : SequenceWord → SlotState × SequenceWord
claim_taking_previous s = (decode s.at, record s { at = vacant_word })

unfoldable pub claim : SequenceWord → SequenceWord
claim s = record s { at = vacant_word }

unfoldable pub is_claim_in_progress : SequenceWord → Bool
is_claim_in_progress s = s.at == vacant_word

module _ {ℓ} {D : Type ℓ} where
  unfoldable pub classify_as : D → ℕ → SlotState → SlotSnapshot D
  classify_as storage pos vacant = not_ready
  classify_as storage pos (published at) = if at == pos then ready storage else not_ready
  classify_as storage pos (abandoned at) = if at == pos then tombstoned else not_ready

  unfoldable pub classify : SequenceWord → D → ℕ → SlotSnapshot D
  classify s storage pos = classify_as storage pos (decode s.at)

-- The word of a state.
abbrev pub encode : SlotState → ℕ
encode vacant = vacant_word
encode (published pos) = published_word pos
encode (abandoned pos) = abandoned_word pos

pub decode-published : (pos : ℕ) → pos < 2 ^ 63 - 1 → decode (published_word pos) ≡ published pos
unfolding decode published_word
decode-published pos small = ground arith

pub decode-abandoned : (pos : ℕ) → pos < 2 ^ 63 - 1 → decode (abandoned_word pos) ≡ abandoned pos
unfolding decode abandoned_word
decode-abandoned pos small = ground arith

pub decode-vacant : decode vacant_word ≡ vacant
unfolding decode
decode-vacant = refl

-- Every word of `usize` is the word of the state that it decodes to, so no two words decode to one state.
encode-decode : (w : ℕ) → w < 2 ^ 64 → encode (decode w) ≡ w
unfolding decode published_word abandoned_word
encode-decode w small = elim (Bool-cases (w == 0)) [
  | inl zero_word ↦ rw zero_word (omega (arith, (==_iff w 0).0 zero_word))
  | inr some_word ↦ elim (Bool-cases (w % 2 == 1)) [
    | inl odd ↦ rw (some_word, odd) (omega (arith, (==_iff (w % 2) 1).0 odd))
    | inr even ↦ rw (some_word, even) (ground arith)
  ]
]

-- For positions below half of `usize`, a slot published at a position is ready at that position only;
-- one abandoned there is a tombstone there only; a claim takes back the state that was stored, a value
-- to be dropped exactly when one was published, and leaves the slot ready nowhere.
claim_lem {ℓ} :
    {D : Type ℓ} (p q : ℕ) (s : SequenceWord) (storage : D)
    → p < 2 ^ 63 - 1
    → (classify (publish p s) storage q ≡ (if p == q then ready storage else not_ready))
      × (classify (abandon p s) storage q ≡ (if p == q then tombstoned else not_ready))
      × (claim_taking_previous (publish p s) ≡ (published p, claim s))
      × (claim_taking_previous (abandon p s) ≡ (abandoned p, claim s))
      × (classify (claim s) storage q ≡ not_ready)
      × (is_claim_in_progress (publish p s) ≡ false)
      × (is_claim_in_progress (abandon p s) ≡ false)
unfolding classify classify_as publish abandon claim_taking_previous claim is_claim_in_progress
    published_word abandoned_word
claim_lem p q s storage small = (
  rw (decode-published p small) refl,
  rw (decode-abandoned p small) refl,
  rw (decode-published p small) refl,
  rw (decode-abandoned p small) refl,
  rw decode-vacant refl,
  ground arith,
  ground arith,
)
