-- ===== src/Mpsc/Board.antt =====
-- What the mpsc ring stands for: one fate for each position, in the order in which the positions were
-- claimed, and what each fate says of the slot of its position.
use quetzalcoatl.Common.{
  ℕ, zero, suc, ◌+◌, ◌*◌, ◌%◌, ◌≤◌, ◌<◌, ◌≡◌, ◌≢◌, refl, sym, ap, ap₂, subst, ◌∙◌, inl, inr, Option,
  none, some, List, [], ◌∷◌, ◌++◌, arith,
}
use quetzalcoatl.Common.Tests.{◌==◌, if◌then◌else◌, ==_iff, Bool-cases}
use quetzalcoatl.Common.Lists.{length, get_elem?, set, get_elem?-set_self, get_elem?-set_ne}
use quetzalcoatl.Slot.Sequence.{SeqSlot, tombstone_word}

-- A position is not claimed yet; claimed by a handle, which may have written a value; published with a
-- value; or given up.
pub data Fate {ℓ} (A : Type ℓ) : Type ℓ where
  unclaimed : Fate A
  pending : ℕ → Option A → Fate A
  sent : A → Fate A
  dead : Fate A

abbrev pub update {ℓ} : {X : Type ℓ} → (ℕ → X) → ℕ → X → ℕ → X
update f i a j = if j == i then a else f j

pub update_self {ℓ} : {X : Type ℓ} (f : ℕ → X) (i : ℕ) (a : X) → update f i a i ≡ a
update_self f i a = rw ((==_iff i i).1 refl) refl

pub update-ne {ℓ} : {X : Type ℓ} (f : ℕ → X) (i j : ℕ) (a : X) → j ≢ i → update f i a j ≡ f j
update-ne f i j a ne = elim (Bool-cases (j == i)) [
  | inl same ↦ absurd (ne ((==_iff j i).0 same))
  | inr other ↦ rw other refl
]

module _ {ℓ} {A : Type ℓ} where
  abbrev pub value : Fate A → List A
  value unclaimed = []
  value (pending i o) = []
  value (sent v) = v ∷ []
  value dead = []

  -- The values published at the first `n` positions, in order.
  abbrev pub values : (ℕ → Fate A) → ℕ → List A
  values f zero = []
  values f (suc n) = values f n ++ value (f n)

  -- A fate that does not change any more.
  abbrev pub IsSettled : Fate A → Type 0
  IsSettled unclaimed = ⊥
  IsSettled (pending i o) = ⊥
  IsSettled (sent v) = Unit
  IsSettled dead = Unit

  pub values-update :
      (f : ℕ → Fate A) (i n : ℕ) (a : Fate A) → n ≤ i → values (update f i a) n ≡ values f n
  values-update f i zero a h = refl
  values-update f i (suc n) a h =
      ap₂ (λ l x. l ++ value x) (values-update f i n a (omega arith))
        (update-ne f i n a (omega arith))

  -- What the slot of position `p` holds.
  abbrev pub Holds : Fate A → ℕ → SeqSlot A → Type ℓ
  Holds unclaimed p s = (s.sequence.at ≡ p * 2) × Unit {ℓ}
  Holds (pending i none) p s = (s.sequence.at ≡ p * 2) × Unit {ℓ}
  Holds (pending i (some v)) p s = (s.sequence.at ≡ p * 2) × (s.storage ≡ some v)
  Holds (sent v) p s = (s.sequence.at ≡ p * 2 + 1) × (s.storage ≡ some v)
  Holds dead p s = (s.sequence.at ≡ tombstone_word) × Unit {ℓ}

  -- The slot of a position.
  pub record At (buf : List (SeqSlot A)) (m : ℕ) (x : Fate A) (p : ℕ) : Type ℓ where
    pub here : SeqSlot A
    pub found : get_elem? buf (p % m) ≡ some here
    pub holds : Holds x p here

  -- The slots of the positions from `lo` to below `hi`.
  abbrev pub Slots : List (SeqSlot A) → ℕ → (ℕ → Fate A) → (lo hi : ℕ) → Type ℓ
  Slots buf m f lo hi = (p : ℕ) → lo ≤ p → p < hi → At buf m (f p) p

  -- After a write of one slot, of which `p` is the position that it serves now.
  pub Slots-set :
      (buf : List (SeqSlot A)) (m : ℕ) (f g : ℕ → Fate A) (lo hi lo' hi' i p : ℕ) (s : SeqSlot A)
      → Slots buf m f lo hi
      → i < length buf
      → i ≡ p % m
      → Holds (g p) p s
      → ((q : ℕ) → lo' ≤ q → q < hi' → q ≢ p → (lo ≤ q) × (q < hi) × (g q ≡ f q) × (i ≢ q % m))
      → Slots (set buf i s) m g lo' hi'
  Slots-set buf m f g lo hi lo' hi' i p s slots inside at now others q low high =
      elim (Bool-cases (q == p)) [
        | inl same ↦
            subst (λ q. At (set buf i s) m (g q) q) (sym ((==_iff q p).0 same))
              (record {
                here = s;
                found = ap (get_elem? (set buf i s)) (sym at) ∙ get_elem?-set_self buf i s inside;
                holds = now;
              })
        | inr other ↦
            let (low', high', eq, apart) = others q low high (λ e. cc (other, (==_iff q p).1 e)) in
            let old = slots q low' high' in
            record {
              here = old.here;
              found = get_elem?-set_ne buf s apart ∙ old.found;
              holds = subst (λ x. Holds x q old.here) (sym eq) old.holds;
            }
      ]
