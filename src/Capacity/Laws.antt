-- ===== src/Capacity/Laws.antt =====
-- The constructors of `Capacity`: what they accept, and that what they return is valid.
use native.Mathlib.Nat.{pow-suc, one-le-pow, pow-le-pow_right, add-zero, mod-eq_of_lt}
use native.Mathlib.Decide.{ℕ_discrete, dec_lt}
use quetzalcoatl.Common.{
  ℕ, zero, suc, ◌+◌, ◌-◌, ◌^◌, ◌≤◌, ◌<◌, ◌≡◌, ap, refl, ◌⊎◌, inl, inr, ◌∙◌, true, false, none, some,
  arith,
}
use quetzalcoatl.Common.Tests.{Bool-cases, leb, leb→le, not-leb→lt, lt→ltb, ◌==◌, ==_iff}
use quetzalcoatl.Common.Words.{word, sub_usize}
use quetzalcoatl.Common.Bits.{bit_and-mask}
use quetzalcoatl.Capacity.{Capacity, IsValid, is_pow_below, pow_from, exact, at_least, index_of}

pow-le_63 : (k : ℕ) → k < 64 → 2 ^ k ≤ 2 ^ 63
pow-le_63 k h = pow-le-pow_right {n = 2} (omega arith) {i = k} {j = 63} (omega arith)

exponent-lt : (e : ℕ) → 2 ^ e < 2 ^ 64 → e < 64
exponent-lt e h = elim (dec_lt e 64) [
  | yes below ↦ below
  | no above ↦
      absurd (omega (arith, pow-le-pow_right {n = 2} (omega arith) {i = 64} {j = e} (omega arith)))
]

exponent-eq : (e : ℕ) → 2 ^ 63 < 2 ^ e → 2 ^ e < 2 ^ 65 → e ≡ 64
exponent-eq e low top = elim (dec_lt e 64) [
  | yes below ↦ absurd (omega (arith, pow-le_63 e below))
  | no above ↦ elim (dec_lt 64 e) [
    | yes large ↦
        absurd
          (omega (arith, pow-le-pow_right {n = 2} (omega arith) {i = 65} {j = e} (omega arith)))
    | no bounded ↦ omega arith
  ]
]

is_pow_below-exponent : (k n : ℕ) → is_pow_below k n ≡ true → (e : ℕ) × (e < k) × (n ≡ 2 ^ e)
unfolding is_pow_below
is_pow_below-exponent zero n h = cc
is_pow_below-exponent (suc k) n h = elim (Bool-cases (n == 2 ^ k)) [
  | inl here ↦ (k, omega arith, (==_iff n (2 ^ k)).0 here)
  | inr not_here ↦
      let (e, below, eq) = is_pow_below-exponent k n (rw not_here at h) in (e, omega arith, eq)
]

pow-is_pow_below : (k e : ℕ) → e < k → is_pow_below k (2 ^ e) ≡ true
unfolding is_pow_below
pow-is_pow_below zero e h = elim h [ ]
pow-is_pow_below (suc k) e h = elim (ℕ_discrete e k) [
  | yes eq ↦ rw (eq, (==_iff (2 ^ k) (2 ^ k)).1 refl)
  | no ne ↦ ground (arith, pow-is_pow_below k e (omega arith))
]

-- From 2^k below the double of a number, the search stops at the power of two that reaches the
-- number and is below its double.
pow_from-bounds :
    (rounds k n : ℕ)
    → 2 ^ k < n + n
    → n ≤ 2 ^ (k + rounds)
    → (e : ℕ) × (pow_from rounds k n ≡ 2 ^ e) × (n ≤ 2 ^ e) × (2 ^ e < n + n)
unfolding pow_from
pow_from-bounds zero k n h top = (k, refl, rw add-zero at top, h)
pow_from-bounds (suc rounds) k n h top = elim (Bool-cases (leb n (2 ^ k))) [
  | inl reached ↦ (k, rw reached, leb→le _ _ reached, h)
  | inr short ↦ rw short (
      pow_from-bounds rounds (suc k) n (omega (arith, pow-suc 2 k, not-leb→lt n (2 ^ k) short))
        (rw shift at top))
]
  where
    shift : k + suc rounds ≡ suc k + rounds
    shift = omega arith

-- The search of `next_power_of_two`, 64 doublings up from 1.
pow_from_64 :
    (n : ℕ)
    → 0 < n
    → n ≤ 2 ^ 64
    → (e : ℕ) × (pow_from 64 0 n ≡ 2 ^ e) × (n ≤ 2 ^ e) × (2 ^ e < n + n)
pow_from_64 n pos h = pow_from-bounds 64 0 n (omega arith) h

sub_usize-pow : (e : ℕ) → e < 64 → sub_usize (2 ^ e) 1 ≡ 2 ^ e - 1
sub_usize-pow e h = omega (arith, one-le-pow e 2, pow-le_63 e h)

abbrev pub of_exponent : ℕ → Capacity
of_exponent e = record { cap = 2 ^ e; mask = 2 ^ e - 1 }

pub of_exponent-IsValid : (e : ℕ) → e < 64 → IsValid (of_exponent e)
of_exponent-IsValid e h = record { exponent = e; small = h; power = refl; ones = refl }

exact-pow : (e : ℕ) → e < 64 → exact (2 ^ e) ≡ some (of_exponent e)
unfolding exact
exact-pow e h =
    rw (lt→ltb 0 (2 ^ e) (one-le-pow e 2 (omega arith)), pow-is_pow_below 64 e h, sub_usize-pow e h)

exact-eq-none : (n : ℕ) → is_pow_below 64 n ≡ false → exact n ≡ none
unfolding exact
exact-eq-none n h = ground arith

-- `exact` returns the capacity, with its mask, when the number is one of the powers 2^0 … 2^63,
-- and panics when it is none of them (0 included).
exact_lem :
    (n : ℕ)
    → ((e : ℕ) × (e < 64) × (n ≡ 2 ^ e) × (exact n ≡ some (of_exponent e)))
      ⊎ (¬ ((e : ℕ) × (e < 64) × (n ≡ 2 ^ e)) × (exact n ≡ none))
exact_lem n = elim (Bool-cases (is_pow_below 64 n)) [
  | inl found ↦
      let (e, small, eq) = is_pow_below-exponent 64 n found in
      inl (e, small, eq, ap exact eq ∙ exact-pow e small)
  | inr missing ↦ inr (
    (λ (e, small, eq). cc (missing, pow-is_pow_below 64 e small, ap (is_pow_below 64) eq)),
    exact-eq-none n missing,
  )
]

at_least-pow :
    (n e : ℕ) → 0 < n → e < 64 → pow_from 64 0 n ≡ 2 ^ e → at_least n ≡ some (of_exponent e)
unfolding at_least
at_least-pow n e pos small eq = rw (lt→ltb 0 n pos, eq, word-pow e small, sub_usize-pow e small)
  where
    word-pow : (e : ℕ) → e < 64 → word (2 ^ e) ≡ 2 ^ e
    word-pow e h = omega (arith, pow-le_63 e h)

-- For a minimum from 1 to 2^63, `at_least` returns a valid capacity: the power of two that reaches
-- the minimum and is below its double.
pub at_least-bounds :
    (n : ℕ)
    → 0 < n
    → n ≤ 2 ^ 63
    → (c : Capacity) × (at_least n ≡ some c) × IsValid c × (n ≤ c.cap) × (c.cap < n + n)
at_least-bounds n pos top =
    let (e, eq, reaches, close) = pow_from_64 n pos (omega arith) in
    let small : e < 64 = exponent-lt e (omega arith) in
    (of_exponent e, at_least-pow n e pos small eq, of_exponent-IsValid e small, reaches, close)

-- No slots, and a mask of all ones.
abbrev pub slotless : Capacity
slotless = record { cap = 0; mask = 2 ^ 64 - 1 }

-- Past 2^63 the power of two does not fit: in a build without overflow checks `at_least` returns a
-- capacity of zero slots with a mask of all ones, by which the index of each position of a `usize` is
-- the position itself.
pub at_least-overflow :
    (n : ℕ)
    → 2 ^ 63 < n
    → n < 2 ^ 64
    → (at_least n ≡ some slotless) × ((pos : ℕ) → pos < 2 ^ 64 → index_of slotless pos ≡ pos)
unfolding at_least index_of
at_least-overflow n low top =
    let (e, eq, reaches, close) = pow_from_64 n (omega arith) (omega arith) in
    (
      rw (lt→ltb 0 n (omega arith), eq, exponent-eq e (omega arith) (omega arith)),
      λ pos below. bit_and-mask pos 64 ∙ mod-eq_of_lt below,
    )
