-- ===== src/Uid/Bits.antt =====
-- `|` of two words with no common bit is their sum.
use Prim.Native.Nat.{bit_or, digits, bit_or-bitwise, max}
use native.Mathlib.Nat.{pow-suc}
use async_rpc_fbthrift.Common.{
  ℕ, zero, suc, ◌+◌, ◌*◌, ◌/◌, ◌^◌, ◌≤◌, ◌<◌, ◌≡◌, refl, ap, ◌∙◌, arith,
}

-- What the native operation stands for, with its fuel.
abbrev or_on : ℕ → ℕ → ℕ → ℕ
or_on fuel a b = digits (λ rest. rest) max fuel a b

twice_pow : (q k : ℕ) → q * 2 ^ suc k ≡ 2 * (q * 2 ^ k)
twice_pow q k = omega (arith, ap (λ (p : ℕ). q * p) (pow-suc 2 k))

-- Digit by digit: where the left operand ends in k zeros and the right one has k digits, no digit
-- of the one meets a digit of the other.
or_on-eq-add : (n a b k q : ℕ) → a ≤ n → a ≡ q * 2 ^ k → b < 2 ^ k → or_on n a b ≡ a + b
or_on-eq-add zero zero b k q h e l = omega arith
or_on-eq-add zero (suc a) b k q h e l = absurd (omega arith)
or_on-eq-add (suc n) zero b k q h e l = omega arith
or_on-eq-add (suc n) (suc a) b zero q h e l = omega (
  arith,
  or_on-eq-add n (suc a / 2) (b / 2) 0 (suc a / 2) (omega arith) (omega arith) (omega arith),
)
or_on-eq-add (suc n) (suc a) b (suc k) q h e l = omega (
  arith,
  twice_pow q k,
  pow-suc 2 k,
  or_on-eq-add n (suc a / 2) (b / 2) k q (omega arith) (omega (arith, twice_pow q k))
      (omega (arith, pow-suc 2 k)),
)

pub bit_or-eq-add : (q k b : ℕ) → b < 2 ^ k → bit_or (q * 2 ^ k) b ≡ q * 2 ^ k + b
bit_or-eq-add q k b h =
    bit_or-bitwise _ _ ∙ or_on-eq-add (q * 2 ^ k) (q * 2 ^ k) b k q (omega arith) refl h
