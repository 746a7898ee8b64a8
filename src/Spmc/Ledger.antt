-- ===== src/Spmc/Ledger.antt =====
-- What becomes of each position of an spmc ring, and what the slot of a position then holds.
use native.Mathlib.Decide.{dec_lt}
use quetzalcoatl.Common.{
  ℕ, zero, suc, ◌+◌, ◌%◌, ◌≤◌, ◌<◌, ◌≡◌, ◌≢◌, ◌⊎◌, refl, sym, ap, ap₂, subst, ◌∙◌, inl, inr, ◌&&◌,
  Option, none, some, List, [], ◌∷◌, ◌++◌, append-nil, arith,
}
use quetzalcoatl.Common.Tests.{leb, ltb, ◌==◌, if◌then◌else◌, ==_iff, Bool-cases}
use quetzalcoatl.Common.Lists.{get_elem?}
use quetzalcoatl.Slot.Done.{DoneWord}

-- A position is not published yet; published; claimed by a consumer; read by it; given back by it.
pub data Fate {ℓ} (A : Type ℓ) : Type ℓ where
  unsent : Fate A
  sent : A → Fate A
  claimed : ℕ → A → Fate A
  taken : ℕ → A → Fate A
  given : ℕ → A → Fate A

module _ {ℓ} {A : Type ℓ} where
  -- The value of a position that consumer `i` has read.
  abbrev pub read_by : ℕ → Fate A → List A
  read_by i unsent = []
  read_by i (sent v) = []
  read_by i (claimed j v) = []
  read_by i (taken j v) = if j == i then v ∷ [] else []
  read_by i (given j v) = if j == i then v ∷ [] else []

  -- The values that consumer `i` has read at the first `n` positions, in order.
  abbrev pub reads : ℕ → (ℕ → Fate A) → ℕ → List A
  reads i f zero = []
  reads i f (suc n) = reads i f n ++ read_by i (f n)

  abbrev pub value : Fate A → List A
  value unsent = []
  value (sent v) = v ∷ []
  value (claimed j v) = v ∷ []
  value (taken j v) = v ∷ []
  value (given j v) = v ∷ []

  -- The values published at the first `n` positions, in order.
  abbrev pub published : (ℕ → Fate A) → ℕ → List A
  published f zero = []
  published f (suc n) = published f n ++ value (f n)

  pub published-same :
      (f g : ℕ → Fate A) (n : ℕ)
      → ((p : ℕ) → p < n → value (g p) ≡ value (f p))
      → published g n ≡ published f n
  published-same f g zero h = refl
  published-same f g (suc n) h =
      ap₂ (λ a b. a ++ b) (published-same f g n (λ p lt. h p (omega arith))) (h n (omega arith))

  -- A consumer has claimed the position.
  abbrev pub IsOwned : Fate A → Type 0
  IsOwned unsent = ⊥
  IsOwned (sent v) = ⊥
  IsOwned (claimed j v) = Unit
  IsOwned (taken j v) = Unit
  IsOwned (given j v) = Unit

  -- The position is no concern of consumer `i`.
  abbrev pub IsForeign : ℕ → Fate A → Type 0
  IsForeign i unsent = Unit
  IsForeign i (sent v) = Unit
  IsForeign i (claimed j v) = j ≢ i
  IsForeign i (taken j v) = j ≢ i
  IsForeign i (given j v) = j ≢ i

  pub read_by-IsForeign : (i : ℕ) (x : Fate A) → IsForeign i x → read_by i x ≡ []
  read_by-IsForeign i unsent h = refl
  read_by-IsForeign i (sent v) h = refl
  read_by-IsForeign i (claimed j v) h = refl
  read_by-IsForeign i (taken j v) h = elim (Bool-cases (j == i)) [
    | inl same ↦ absurd (h ((==_iff j i).0 same))
    | inr other ↦ rw other refl
  ]
  read_by-IsForeign i (given j v) h = elim (Bool-cases (j == i)) [
    | inl same ↦ absurd (h ((==_iff j i).0 same))
    | inr other ↦ rw other refl
  ]

  pub read_by_self : (i : ℕ) (v : A) → read_by i (taken i v) ≡ v ∷ []
  read_by_self i v = rw ((==_iff i i).1 refl) refl

  pub reads-same :
      (i : ℕ) (f g : ℕ → Fate A) (n : ℕ)
      → ((p : ℕ) → p < n → read_by i (g p) ≡ read_by i (f p))
      → reads i g n ≡ reads i f n
  reads-same i f g zero h = refl
  reads-same i f g (suc n) h =
      ap₂ (λ a b. a ++ b) (reads-same i f g n (λ p lt. h p (omega arith))) (h n (omega arith))

  -- Positions that the consumer has not read add nothing.
  pub reads-skip :
      (i : ℕ) (f : ℕ → Fate A) (n k : ℕ)
      → ((p : ℕ) → n ≤ p → read_by i (f p) ≡ [])
      → reads i f (n + k) ≡ reads i f n
  reads-skip i f n zero h = let same : n + 0 ≡ n = omega arith in ap (reads i f) same
  reads-skip i f n (suc k) h =
      let next : n + suc k ≡ suc (n + k) = omega arith in
      ap (reads i f) next
      ∙ ap (λ l. reads i f (n + k) ++ l) (h (n + k) (omega arith))
      ∙ append-nil _
      ∙ reads-skip i f n k h

  -- A claim of the positions from `lo` to below `hi` by consumer `i`.
  abbrev pub claim : ℕ → Fate A → Fate A
  claim i unsent = unsent
  claim i (sent v) = claimed i v
  claim i (claimed j v) = claimed j v
  claim i (taken j v) = taken j v
  claim i (given j v) = given j v

  -- A position that was read is given back.
  abbrev pub give : Fate A → Fate A
  give unsent = unsent
  give (sent v) = sent v
  give (claimed j v) = claimed j v
  give (taken j v) = given j v
  give (given j v) = given j v

  abbrev pub claim_range : ℕ → (lo hi : ℕ) → (ℕ → Fate A) → ℕ → Fate A
  claim_range i lo hi f p = if leb lo p && ltb p hi then claim i (f p) else f p

  pub claim_range-inside :
      (i lo hi : ℕ) (f : ℕ → Fate A) (p : ℕ)
      → lo ≤ p
      → p < hi
      → claim_range i lo hi f p ≡ claim i (f p)
  claim_range-inside i lo hi f p low high = ground arith

  pub claim_range-outside :
      (i lo hi : ℕ) (f : ℕ → Fate A) (p : ℕ) → (p < lo) ⊎ (hi ≤ p) → claim_range i lo hi f p ≡ f p
  claim_range-outside i lo hi f p h = ground arith

  -- What a claim of published positions leaves.
  pub claim_range_elim {κ} :
      (P : ℕ → Fate A → Type κ) (i lo hi : ℕ) (f : ℕ → Fate A)
      → ((p : ℕ) → lo ≤ p → p < hi → (v : A) × (f p ≡ sent v))
      → ((p : ℕ) (v : A) → lo ≤ p → p < hi → f p ≡ sent v → P p (claimed i v))
      → ((p : ℕ) → (p < lo) ⊎ (hi ≤ p) → P p (f p))
      → (p : ℕ) → P p (claim_range i lo hi f p)
  claim_range_elim P i lo hi f published inside outside p = elim (dec_lt p lo) [
    | yes below ↦
        subst (P p) (sym (claim_range-outside i lo hi f p (inl below))) (outside p (inl below))
    | no from ↦ elim (dec_lt p hi) [
      | yes to ↦
          let (v, e) = published p (omega arith) to in
          subst (P p) (sym (claim_range-inside i lo hi f p (omega arith) to ∙ ap (claim i) e))
            (inside p v (omega arith) to e)
      | no above ↦
          let high : hi ≤ p = omega arith in
          subst (P p) (sym (claim_range-outside i lo hi f p (inr high))) (outside p (inr high))
    ]
  ]

  -- The slot of position `p` waits for its consumer.
  pub record Kept (values : List (Option A)) (done : List DoneWord) (m p : ℕ) (held : Option A)
      : Type ℓ where
    pub word_at : get_elem? done (p % m) ≡ some (record { at = p })
    pub value_at : get_elem? values (p % m) ≡ some held

  abbrev pub At : List (Option A) → List DoneWord → ℕ → Fate A → ℕ → Type ℓ
  At values done m unsent p = Unit
  At values done m (sent v) p = Kept values done m p (some v)
  At values done m (claimed j v) p = Kept values done m p (some v)
  At values done m (taken j v) p = Kept values done m p none
  At values done m (given j v) p = Unit
