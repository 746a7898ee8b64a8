-- ===== src/Common/Bits.antt =====
-- `x & (2^k - 1)` is `x % 2^k`. The native `&` has only its digit recursion as a law.
use Prim.Native.Nat.{
  ℕ, zero, suc, ◌+◌, ◌-◌, ◌*◌, ◌/◌, ◌%◌, ◌^◌, ◌≤◌, min, bit_and, digits, bit_and-bitwise,
}
use mathlib.Core.Path.{◌≡◌, refl, ap, ◌∙◌}
use native.Mathlib.Nat.{pow-succ', one-le-pow, mod-le, div-add-mod, div-div-eq-div-mul}
use native.Mathlib.Omega.{arith}

-- The recursion behind `&`, on `n` rounds.
abbrev rounds : ℕ → ℕ → ℕ → ℕ
rounds = digits (λ b. zero) min

rounds-zero : (n a : ℕ) → rounds n a 0 ≡ 0
rounds-zero zero a = ground arith
rounds-zero (suc n) zero = refl
rounds-zero (suc n) (suc a) = omega (arith, rounds-zero n (suc a / 2))

-- A remainder by an even number, lowest digit first.
mod-double : (a m : ℕ) → a % (2 * m) ≡ a / 2 % m * 2 + a % 2
mod-double a m = omega (
  arith,
  div-add-mod a (2 * m),
  div-add-mod (a / 2) m,
  ap (λ (q : ℕ). m * q) (div-div-eq-div-mul a 2 m),
)

rounds_mask : (n a k : ℕ) → a ≤ n → rounds n a (2 ^ k - 1) ≡ a % 2 ^ k
rounds_mask n a zero h = ground (arith, rounds-zero n a)
rounds_mask zero a (suc k) h = omega (arith, one-le-pow (suc k) 2, mod-le a (2 ^ suc k))
rounds_mask (suc n) zero (suc k) h = omega (arith, mod-le 0 (2 ^ suc k))
rounds_mask (suc n) (suc a) (suc k) h =
    rw (pow-succ', mod-double, half_mask k, low_digit k, rounds_mask n (suc a / 2) k (omega arith))
      (omega arith)
  where
    half_mask : (k : ℕ) → (2 * 2 ^ k - 1) / 2 ≡ 2 ^ k - 1
    half_mask k = omega (arith, one-le-pow k 2)

    low_digit : (k : ℕ) → (2 * 2 ^ k - 1) % 2 ≡ 1
    low_digit k = omega (arith, one-le-pow k 2)

-- Masking with `k` ones is the remainder by `2 ^ k`.
pub bit_and-mask : (a k : ℕ) → bit_and a (2 ^ k - 1) ≡ a % 2 ^ k
bit_and-mask a k = bit_and-bitwise a (2 ^ k - 1) ∙ rounds_mask a a k (omega arith)
