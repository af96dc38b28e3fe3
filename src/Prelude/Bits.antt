-- ===== src/Prelude/Bits.antt =====
-- `bit_xor` stays below a power of two that bounds both numbers.
use Prim.Native.Nat.{
  ℕ, zero, suc, ◌/◌, ◌%◌, ◌^◌, ◌≤◌, ◌<◌, bit_xor, digits, differ, bit_xor-bitwise,
}
use mathlib.Core.Path.{sym, subst}
use native.Mathlib.Nat.{pow-suc}
use native.Mathlib.Omega.{arith}

differ_le_one : (a b : ℕ) → a < 2 → b < 2 → differ a b ≤ 1
differ_le_one zero b h k = omega arith
differ_le_one (suc zero) zero h k = omega arith
differ_le_one (suc zero) (suc b) h k = omega arith
differ_le_one (suc (suc a)) b h k = absurd (omega arith)

digits_lt : (n k a b : ℕ) → a < 2 ^ k → b < 2 ^ k → digits (λ b. b) differ n a b < 2 ^ k
digits_lt zero k a b h e = e
digits_lt (suc n) k zero b h e = e
digits_lt (suc n) zero (suc a) b h e = absurd (omega arith)
digits_lt (suc n) (suc k) (suc a) b h e = omega (
  arith,
  pow-suc 2 k,
  digits_lt n k (suc a / 2) (b / 2) (omega (arith, pow-suc 2 k)) (omega (arith, pow-suc 2 k)),
  differ_le_one (suc a % 2) (b % 2) (omega arith) (omega arith),
)

pub bit_xor_lt : (k a b : ℕ) → a < 2 ^ k → b < 2 ^ k → bit_xor a b < 2 ^ k
bit_xor_lt k a b h e = subst (λ x. x < 2 ^ k) (sym (bit_xor-bitwise a b)) (digits_lt a k a b h e)
