-- ===== src/Base/Bits.antt =====
-- The bit at a position of a number, and how `|` acts on it at every width.
use Prim.Native.Nat.{
  ℕ, zero, suc, ◌+◌, ◌-◌, ◌*◌, ◌/◌, ◌%◌, ◌^◌, ◌≤◌, ◌<◌, max, bit_or, digits, bit_or-bitwise,
}
use mathlib.Core.Path.{◌≡◌, refl}
use mathlib.Core.Bool.{Bool, false, ◌||◌}
use native.Mathlib.Nat.{pow-suc}
use native.Mathlib.Omega.{arith}
use nl.Base.Tests.{◌==◌}

-- `(a >> i) & 1`
abbrev pub test_bit : ℕ → ℕ → Bool
test_bit a zero = a % 2 == 1
test_bit a (suc i) = test_bit (a / 2) i

-- `bit_or` is such a recursion, with its first operand as fuel.
abbrev or_within : ℕ → ℕ → ℕ → ℕ
or_within fuel = digits (λ y. y) max fuel

or_within-zero : (fuel b : ℕ) → or_within fuel 0 b ≡ b
or_within-zero zero b = refl
or_within-zero (suc fuel) b = refl

or_within-add : (spare fuel a b : ℕ) → a ≤ fuel → or_within (spare + fuel) a b ≡ or_within fuel a b
or_within-add spare fuel zero b h =
    omega (arith, or_within-zero (spare + fuel) b, or_within-zero fuel b)
or_within-add spare zero (suc a) b h = absurd (omega arith)
or_within-add spare (suc fuel) (suc a) b h =
    let more : spare + suc fuel ≡ suc (spare + fuel) = omega arith in
    rw more (omega (arith, or_within-add spare fuel (suc a / 2) (b / 2) (omega arith)))

halves : (a b : ℕ) → or_within a (suc a / 2) b ≡ bit_or (suc a / 2) b
halves a b =
    let split : (a - suc a / 2) + suc a / 2 ≡ a = omega arith in
    let whole = or_within-add (a - suc a / 2) (suc a / 2) (suc a / 2) b (omega arith) in
    omega (arith, rw split at whole, bit_or-bitwise (suc a / 2) b)

-- One step of `|`: the lowest bits, and the rest.
pub bit_or_step : (a b : ℕ) → bit_or a b ≡ bit_or (a / 2) (b / 2) * 2 + max (a % 2) (b % 2)
bit_or_step zero b = omega (arith, bit_or-bitwise 0 b, bit_or-bitwise 0 (b / 2))
bit_or_step (suc a) b = omega (arith, halves a (b / 2), bit_or-bitwise (suc a) b)

half-bit_or : (a b : ℕ) → bit_or a b / 2 ≡ bit_or (a / 2) (b / 2)
half-bit_or a b = omega (arith, bit_or_step a b)

-- `|` works bit by bit.
pub test_bit-bit_or : (i a b : ℕ) → test_bit (bit_or a b) i ≡ (test_bit a i || test_bit b i)
test_bit-bit_or zero a b = ground (arith, bit_or_step a b)
test_bit-bit_or (suc i) a b = rw (half-bit_or a b) (test_bit-bit_or i (a / 2) (b / 2))

pub test_bit-zero : (i : ℕ) → test_bit 0 i ≡ false
test_bit-zero zero = refl
test_bit-zero (suc i) = test_bit-zero i

half-pow : (k : ℕ) → 2 ^ suc k / 2 ≡ 2 ^ k
half-pow k = omega (arith, pow-suc 2 k)

-- `1 << k` has one bit.
pub test_bit-pow : (i k : ℕ) → test_bit (2 ^ k) i ≡ (k == i)
test_bit-pow zero zero = refl
test_bit-pow zero (suc k) = ground (arith, pow-suc 2 k)
test_bit-pow (suc i) zero = ground (arith, test_bit-zero i)
test_bit-pow (suc i) (suc k) = rw (half-pow k) (ground (arith, test_bit-pow i k))

-- `|` stays within a width.
pub bit_or-lt-pow : (k a b : ℕ) → a < 2 ^ k → b < 2 ^ k → bit_or a b < 2 ^ k
bit_or-lt-pow zero a b p q = ground (arith, bit_or_step a b, bit_or-bitwise 0 0)
bit_or-lt-pow (suc k) a b p q = omega (
  arith,
  bit_or_step a b,
  pow-suc 2 k,
  bit_or-lt-pow k (a / 2) (b / 2) (omega (arith, pow-suc 2 k)) (omega (arith, pow-suc 2 k)),
)

-- A byte keeps its eight bits when it is stored.
pub test_bit-mod_256 : (i a : ℕ) → i < 8 → test_bit (a % 256) i ≡ test_bit a i
test_bit-mod_256 zero a h = ground arith
test_bit-mod_256 (suc zero) a h = ground arith
test_bit-mod_256 (suc (suc zero)) a h = ground arith
test_bit-mod_256 (suc (suc (suc zero))) a h = ground arith
test_bit-mod_256 (suc (suc (suc (suc zero)))) a h = ground arith
test_bit-mod_256 (suc (suc (suc (suc (suc zero))))) a h = ground arith
test_bit-mod_256 (suc (suc (suc (suc (suc (suc zero)))))) a h = ground arith
test_bit-mod_256 (suc (suc (suc (suc (suc (suc (suc zero))))))) a h = ground arith
test_bit-mod_256 (suc (suc (suc (suc (suc (suc (suc (suc i)))))))) a h = absurd (omega arith)
