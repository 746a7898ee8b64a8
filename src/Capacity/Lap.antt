-- ===== src/Capacity/Lap.antt =====
-- `index_of` on the positions of a ring: one slot for each position of a lap, the same slots on every
-- lap, and no break where a position wraps round `usize`.
use Prim.Native.Nat.{◌∣◌}
use native.Mathlib.Nat.{
  one-le-pow, pow-le-pow_right, mod-lt, mod-mod_of_dvd, div-add-mod, mul-le-mul_left, dvd_refl,
  zero-add, add-mod_right, dvd-mul_left_of_dvd, pow-succ',
}
use native.Mathlib.Decide.{dec_lt}
use quetzalcoatl.Common.{
  ℕ, zero, suc, ◌+◌, ◌-◌, ◌*◌, ◌%◌, ◌^◌, ◌≤◌, ◌<◌, ◌≡◌, ◌≢◌, ap, ◌∙◌, subst, ◌/◌, arith,
}
use quetzalcoatl.Common.Words.{word, add_usize, add_usize-word}
use quetzalcoatl.Common.Bits.{bit_and-mask}
use quetzalcoatl.Capacity.{Capacity, IsValid, index_of, wrap}

pow-dvd : (e d : ℕ) → 2 ^ e ∣ 2 ^ (d + e)
pow-dvd e zero = rw zero-add (dvd_refl (2 ^ e))
pow-dvd e (suc d) = rw double (dvd-mul_left_of_dvd (2 ^ e) (pow-dvd e d) 2)
  where
    double : 2 ^ (suc d + e) ≡ 2 * 2 ^ (d + e)
    double = ap (λ (k : ℕ). 2 ^ k) shift ∙ pow-succ' 2 (d + e)
      where
        shift : suc d + e ≡ suc (d + e)
        shift = omega arith

pow-dvd_of_lt : (e : ℕ) → e < 64 → 2 ^ e ∣ 2 ^ 64
pow-dvd_of_lt e small = subst (λ k. 2 ^ e ∣ 2 ^ k) {y = 64} (omega arith) (pow-dvd e (64 - e))

module _ {c : Capacity} (v : IsValid c) where
  open v use {exponent, small, power, ones}

  pub cap_pos : 0 < c.cap
  cap_pos = rw power (one-le-pow exponent 2 (omega arith))

  pub cap-le : c.cap ≤ 2 ^ 63
  cap-le = rw power (pow-le-pow_right {n = 2} (omega arith) {i = exponent} {j = 63} (omega arith))

  -- The mask is the remainder by the capacity.
  pub index_of-eq-mod : (pos : ℕ) → index_of c pos ≡ pos % c.cap
  unfolding index_of
  index_of-eq-mod pos = rw (ones, power) (bit_and-mask pos exponent)

  cap-dvd : c.cap ∣ 2 ^ 64
  cap-dvd = rw power (pow-dvd_of_lt exponent small)

  pub index_of-word : (n : ℕ) → index_of c (word n) ≡ n % c.cap
  index_of-word n = index_of-eq-mod (word n) ∙ mod-mod_of_dvd c.cap n cap-dvd

  pub wrap-word : (n : ℕ) → wrap c (word n) ≡ n % c.cap
  unfolding wrap
  wrap-word n = rw (ones, power) (bit_and-mask (word n) exponent) ∙ mod-mod_of_dvd c.cap n cap-dvd

  pub index_of-lt : (pos : ℕ) → index_of c pos < c.cap
  index_of-lt pos = rw index_of-eq-mod (mod-lt pos cap_pos)

-- Two numbers less than `m` apart have different remainders.
pub mod-ne : (m a b : ℕ) → 0 < m → a < b → b < a + m → a % m ≢ b % m
mod-ne m a b pos lt near eq = elim (dec_lt (a / m) (b / m)) [
  | yes up ↦ omega (
    arith,
    div-add-mod a m,
    div-add-mod b m,
    mul-le-mul_left {m = a / m + 1} {n = b / m} m (omega arith),
  )
  | no down ↦ omega (
    arith,
    div-add-mod a m,
    div-add-mod b m,
    mul-le-mul_left {m = b / m} {n = a / m} m (omega arith),
  )
]

-- The slot of a position is inside the buffer; the positions of one lap, `usize` rollover included,
-- have different slots; and a position and the one a lap later share a slot.
pub index_of_lap :
    {c : Capacity} (v : IsValid c) (a b : ℕ)
    → a < b
    → b < a + c.cap
    → (index_of c (word a) < c.cap)
      × (index_of c (word a) ≢ index_of c (word b))
      × (index_of c (add_usize (word a) c.cap) ≡ index_of c (word a))
index_of_lap {c} v a b lt near = (
  index_of-lt v (word a),
  rw (index_of-word v a, index_of-word v b) (mod-ne c.cap a b (cap_pos v) lt near),
  rw (add_usize-word a c.cap, index_of-word v (a + c.cap), index_of-word v a, add-mod_right),
)
