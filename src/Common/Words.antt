-- ===== src/Common/Words.antt =====
-- `usize` on a 64-bit target, in a build without overflow checks: `+`, `-` and `*` wrap, as
-- `wrapping_add` and `wrapping_sub` do in every build.
use Prim.Native.Nat.{ℕ, ◌+◌, ◌-◌, ◌*◌, ◌%◌, ◌^◌, ◌≤◌, ◌<◌}
use mathlib.Core.Path.{◌≡◌}
use native.Mathlib.Omega.{arith}

abbrev pub usize_mod : ℕ
usize_mod = 2 ^ 64

abbrev pub add_usize : ℕ → ℕ → ℕ
add_usize a b = (a + b) % usize_mod

abbrev pub sub_usize : ℕ → ℕ → ℕ
sub_usize a b = (a + usize_mod - b) % usize_mod

abbrev pub mul_usize : ℕ → ℕ → ℕ
mul_usize a b = a * b % usize_mod

-- `n as usize` for a number that grows without bound: the word that stands for it.
abbrev pub word : ℕ → ℕ
word n = n % usize_mod

pub add_usize-word : (n k : ℕ) → add_usize (word n) k ≡ word (n + k)
add_usize-word n k = omega arith

-- The wrapping difference of two words is the difference of the numbers that they stand for.
pub sub_usize-word : (a b : ℕ) → b ≤ a → a < b + usize_mod → sub_usize (word a) (word b) ≡ a - b
sub_usize-word a b h k = omega arith

pub word-injective : (a b : ℕ) → b ≤ a → a < b + usize_mod → word a ≡ word b → a ≡ b
word-injective a b h k e = omega arith
