-- ===== src/Capacity.antt =====
-- src/capacity.rs: a power-of-two capacity and the mask that maps positions to slots.
-- A constructor that panics returns `none`. `is_power_of_two` and `next_power_of_two` are those of
-- the standard library on `usize`, in a build without overflow checks.
pub mod Laws
pub mod Lap
use quetzalcoatl.Common.{
  ℕ, zero, suc, ◌+◌, ◌-◌, ◌^◌, ◌<◌, ◌≡◌, Bool, true, false, ◌&&◌, ◌||◌, Option, none, some, bit_and,
}
use quetzalcoatl.Common.Tests.{ltb, leb, ◌==◌, if◌then◌else◌}
use quetzalcoatl.Common.Words.{word, sub_usize}

pub record Capacity : Type 0 where
  pub cap : ℕ
  pub mask : ℕ

-- Whether the number is 2^j for some j below `k`.
pub is_pow_below : ℕ → ℕ → Bool
is_pow_below zero n = false
is_pow_below (suc k) n = (n == 2 ^ k) || is_pow_below k n

abbrev pub is_power_of_two : ℕ → Bool
is_power_of_two = is_pow_below 64

-- The first of 2^k, 2^(k+1), … that reaches `n`, at most `rounds` doublings up.
pub pow_from : (rounds k n : ℕ) → ℕ
pow_from zero k n = 2 ^ k
pow_from (suc rounds) k n =
    let rest = pow_from rounds (suc k) n in if leb n (2 ^ k) then 2 ^ k else rest

-- Wraps to 0 if no power of two of 64 bits reaches `n`.
abbrev pub next_power_of_two : ℕ → ℕ
next_power_of_two n = word (pow_from 64 0 n)

unfoldable pub exact : ℕ → Option Capacity
exact cap =
    if ltb 0 cap && is_power_of_two cap
    then some (record { cap = cap; mask = sub_usize cap 1 })
    else none

unfoldable pub at_least : ℕ → Option Capacity
at_least min =
    if ltb 0 min
    then some (record { cap = next_power_of_two min; mask = sub_usize (next_power_of_two min) 1 })
    else none

unfoldable pub get : Capacity → ℕ
get c = c.cap

unfoldable pub index_of : Capacity → ℕ → ℕ
index_of c pos = bit_and pos c.mask

unfoldable pub wrap : Capacity → ℕ → ℕ
wrap c delta = bit_and delta c.mask

-- What the constructors promise: a power of two of at most 63 bits, and the mask one below it.
pub record IsValid (c : Capacity) : Type 0 where
  pub exponent : ℕ
  pub small : exponent < 64
  pub power : c.cap ≡ 2 ^ exponent
  pub ones : c.mask ≡ 2 ^ exponent - 1
