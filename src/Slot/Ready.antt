-- ===== src/Slot/Ready.antt =====
-- src/mpmc/ready_word.rs: the word that a producer publishes and a consumer claims.
use native.Mathlib.Nat.{div-add-mod, mul-add-mod_self_left, mod-lt, mod-eq_of_lt}
use quetzalcoatl.Common.{
  ℕ, zero, suc, ◌+◌, ◌*◌, ◌/◌, ◌%◌, ◌≤◌, ◌<◌, ◌≡◌, ◌≢◌, ap, ap₂, sym, ◌∙◌, Bool, true, false, arith,
}
use quetzalcoatl.Common.Tests.{◌==◌, if◌then◌else◌}
use quetzalcoatl.Common.Words.{add_usize, sub_usize, word}
use quetzalcoatl.Capacity
use quetzalcoatl.Capacity.{Capacity, IsValid}
use quetzalcoatl.Capacity.Lap.{cap-le, cap_pos, wrap-word}

pub data ReadyState : Type 0 where
  free : ℕ → ReadyState
  published : ℕ → ReadyState
  claimed : ℕ → ReadyState

unfoldable pub round_pos : ReadyState → ℕ
round_pos (free pos) = pos
round_pos (published pos) = pos
round_pos (claimed pos) = pos

unfoldable pub is_published : ReadyState → Bool
is_published (free pos) = false
is_published (published pos) = true
is_published (claimed pos) = false

pub record ReadyWord : Type 0 where
  pub at : ℕ

unfoldable pub free_at : ℕ → ReadyWord
free_at slot = record { at = slot }

abbrev state_at : ℕ → ℕ → ReadyState
state_at zero pos = free pos
state_at (suc zero) pos = published pos
state_at (suc (suc n)) pos = claimed pos

unfoldable pub decode : ℕ → ℕ → Capacity → ReadyState
decode w slot c =
    let state = Capacity.wrap c (sub_usize w slot) in state_at state (sub_usize w state)

unfoldable pub state : ReadyWord → ℕ → Capacity → ReadyState
state r slot c = decode r.at slot c

unfoldable pub publish : ℕ → ReadyWord → ReadyWord
publish pos r = record r { at = add_usize pos 1 }

-- The compare-and-swap, and whether it won.
unfoldable pub claim : ℕ → ReadyWord → Bool × ReadyWord
claim pos r =
    if r.at == add_usize pos 1 then (true, record r { at = add_usize pos 2 }) else (false, r)

unfoldable pub abandon : ℕ → ReadyWord → ReadyWord
abandon pos r = record r { at = add_usize pos 2 }

module _ {c : Capacity} (v : IsValid c) where
  offset : (p a : ℕ) → sub_usize (word (p + a)) (p % c.cap) ≡ word (c.cap * (p / c.cap) + a)
  offset p a = omega (arith, div-add-mod p c.cap, mod-lt p (cap_pos v), cap-le v)

  wrap_offset : (p a : ℕ) → a < c.cap → Capacity.wrap c (sub_usize (word (p + a)) (p % c.cap)) ≡ a
  wrap_offset p a small =
      ap (Capacity.wrap c) (offset p a)
      ∙ wrap-word v (c.cap * (p / c.cap) + a)
      ∙ mul-add-mod_self_left c.cap (p / c.cap) a
      ∙ mod-eq_of_lt small

  decode-word :
      (p a : ℕ) → a < 3 → a < c.cap → decode (word (p + a)) (p % c.cap) c ≡ state_at a (word p)
  unfolding decode
  decode-word p a low small =
      ap (λ (s : ℕ). state_at s (sub_usize (word (p + a)) s)) (wrap_offset p a small)
      ∙ ap (state_at a) (omega arith)

  -- Words that stand for different states of a slot differ, whatever the rounds.
  apart :
      (p q a b : ℕ)
      → p % c.cap ≡ q % c.cap
      → a < c.cap
      → b < c.cap
      → word (p + a) ≡ word (q + b)
      → a ≡ b
  apart p q a b same small_a small_b e =
      sym (wrap_offset p a small_a)
      ∙ ap₂ (λ (w s : ℕ). Capacity.wrap c (sub_usize w s)) e same
      ∙ wrap_offset q b small_b

  claim-refused :
      (p q a : ℕ) (w : ReadyWord)
      → p % c.cap ≡ q % c.cap
      → a < c.cap
      → 1 < c.cap
      → a ≢ 1
      → w.at ≡ word (p + a)
      → claim (word q) w ≡ (false, w)
  unfolding claim
  claim-refused p q a w same small one other e = ground (arith, apart p q a 1 same small one)

  state-word :
      (p a w : ℕ)
      → w ≡ word (p + a)
      → a < 3
      → a < c.cap
      → decode w (p % c.cap) c ≡ state_at a (word p)
  state-word p a w e low small =
      ap (λ (w : ℕ). decode w (p % c.cap) c) e ∙ decode-word p a low small

claim-published :
    (p q : ℕ)
    → let stored = publish (word p) (record { at = word p }) in
      claim (word q) stored ≡ (
        if word p == word q
        then (true, abandon (word p) (record { at = word p }))
        else (false, stored))
unfolding claim publish abandon
claim-published p q = ground arith

-- In a ring of at least four slots, for two positions of one slot: the words of a free slot, a published
-- one and an abandoned one decode to that state at their position; a claim of a published word wins
-- exactly at the position published, and leaves the word that an abandoned reservation leaves; and
-- no claim wins on a free or an abandoned word, whatever its round.
pub state_lem :
    {c : Capacity} (v : IsValid c) (p q : ℕ)
    → 4 ≤ c.cap
    → p % c.cap ≡ q % c.cap
    → let slot = p % c.cap in
      let fresh : ReadyWord = record { at = word p } in
      let stored = publish (word p) fresh in
      let given_up = abandon (word p) fresh in
      (state fresh slot c ≡ free (word p))
      × (state stored slot c ≡ published (word p))
      × (state given_up slot c ≡ claimed (word p))
      × (claim (word q) stored ≡ (if word p == word q then (true, given_up) else (false, stored)))
      × (claim (word q) fresh ≡ (false, fresh))
      × (claim (word q) given_up ≡ (false, given_up))
unfolding state publish abandon
state_lem {c} v p q large same = (
  state-word v p 0 _ (omega arith) (omega arith) (omega arith),
  state-word v p 1 _ (omega arith) (omega arith) (omega arith),
  state-word v p 2 _ (omega arith) (omega arith) (omega arith),
  claim-published p q,
  claim-refused v p q 0 _ same (omega arith) (omega arith) (omega arith) (omega arith),
  claim-refused v p q 2 _ same (omega arith) (omega arith) (omega arith) (omega arith),
)
