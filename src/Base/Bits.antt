-- ===== src/Base/Bits.antt =====
-- The bit operations of C at variables: single bits, fields and masks, at every width.
use Prim.Native.Nat.{ℕ, zero, suc, ◌+◌, ◌-◌, ◌*◌, ◌/◌, ◌%◌, ◌^◌, ◌≤◌, ◌<◌, min, max}
use Prim.Native.Nat.{bit_and, bit_or, digits, bit_and-bitwise, bit_or-bitwise}
use mathlib.Core.Path.{◌≡◌, refl, ap, ◌∙◌, sym}
use native.Mathlib.Omega.{arith}
use native.Mathlib.Nat.{le_refl, pow-suc, one-le-pow}

-- The native operations are a recursion on binary digits with fuel; any fuel at or above the left
-- operand gives the same digits.
module _ (z : ℕ → ℕ) (f : ℕ → ℕ → ℕ) where
  digits_stable : (k l a b : ℕ) → a ≤ k → a ≤ l → digits z f k a b ≡ digits z f l a b
  digits_stable zero zero a b p q = refl
  digits_stable zero (suc l) zero b p q = refl
  digits_stable zero (suc l) (suc a) b p q = absurd (omega arith)
  digits_stable (suc k) zero zero b p q = refl
  digits_stable (suc k) zero (suc a) b p q = absurd (omega arith)
  digits_stable (suc k) (suc l) zero b p q = refl
  digits_stable (suc k) (suc l) (suc a) b p q =
      omega (arith, digits_stable k l (suc a / 2) (b / 2) (omega arith) (omega arith))

or_zero_left : (b : ℕ) → bit_or 0 b ≡ b
or_zero_left b = bit_or-bitwise 0 b

and_zero_left : (b : ℕ) → bit_and 0 b ≡ 0
and_zero_left b = bit_and-bitwise 0 b

-- The equation of the lowest digit.
pub or_halves : (a b : ℕ) → bit_or a b ≡ bit_or (a / 2) (b / 2) * 2 + max (a % 2) (b % 2)
or_halves zero b = omega (arith, or_zero_left b, or_zero_left (b / 2))
or_halves (suc a) b = omega (
  arith,
  bit_or-bitwise (suc a) b,
  bit_or-bitwise (suc a / 2) (b / 2),
  digits_stable (λ y. y) max a (suc a / 2) (suc a / 2) (b / 2) (omega arith) (le_refl _),
)

pub and_halves : (a b : ℕ) → bit_and a b ≡ bit_and (a / 2) (b / 2) * 2 + min (a % 2) (b % 2)
and_halves zero b = omega (arith, and_zero_left b, and_zero_left (b / 2))
and_halves (suc a) b = omega (
  arith,
  bit_and-bitwise (suc a) b,
  bit_and-bitwise (suc a / 2) (b / 2),
  digits_stable (λ y. 0) min a (suc a / 2) (suc a / 2) (b / 2) (omega arith) (le_refl _),
)

-- Bit `n` of `x`.
abbrev pub bit_at : ℕ → ℕ → ℕ
bit_at zero x = x % 2
bit_at (suc n) x = bit_at n (x / 2)

pub bit_at-bit_or : (n a b : ℕ) → bit_at n (bit_or a b) ≡ max (bit_at n a) (bit_at n b)
bit_at-bit_or zero a b = omega (arith, or_halves a b)
bit_at-bit_or (suc n) a b =
    ap (bit_at n) (omega (arith, or_halves a b)) ∙ bit_at-bit_or n (a / 2) (b / 2)

pub bit_at-bit_and : (n a b : ℕ) → bit_at n (bit_and a b) ≡ min (bit_at n a) (bit_at n b)
bit_at-bit_and zero a b = omega (arith, and_halves a b)
bit_at-bit_and (suc n) a b =
    ap (bit_at n) (omega (arith, and_halves a b)) ∙ bit_at-bit_and n (a / 2) (b / 2)

or_zero_fuel : (k a : ℕ) → a ≤ k → bit_or a 0 ≡ a
or_zero_fuel k zero h = refl
or_zero_fuel zero (suc a) h = absurd (omega arith)
or_zero_fuel (suc k) (suc a) h =
    omega (arith, or_halves (suc a) 0, or_zero_fuel k (suc a / 2) (omega arith))

pub bit_or-zero : (a : ℕ) → bit_or a 0 ≡ a
bit_or-zero a = or_zero_fuel a a (le_refl _)

and_zero_fuel : (k a : ℕ) → a ≤ k → bit_and a 0 ≡ 0
and_zero_fuel k zero h = refl
and_zero_fuel zero (suc a) h = absurd (omega arith)
and_zero_fuel (suc k) (suc a) h =
    omega (arith, and_halves (suc a) 0, and_zero_fuel k (suc a / 2) (omega arith))

pub bit_and-zero : (a : ℕ) → bit_and a 0 ≡ 0
bit_and-zero a = and_zero_fuel a a (le_refl _)

bit_or_comm_fuel : (k a b : ℕ) → a ≤ k → bit_or a b ≡ bit_or b a
bit_or_comm_fuel k zero b h = or_zero_left b ∙ sym (bit_or-zero b)
bit_or_comm_fuel zero (suc a) b h = absurd (omega arith)
bit_or_comm_fuel (suc k) (suc a) b h = omega (
  arith,
  or_halves (suc a) b,
  or_halves b (suc a),
  bit_or_comm_fuel k (suc a / 2) (b / 2) (omega arith),
)

pub bit_or_comm : (a b : ℕ) → bit_or a b ≡ bit_or b a
bit_or_comm a b = bit_or_comm_fuel a a b (le_refl _)

times_pow_suc : (q k : ℕ) → q * 2 ^ suc k ≡ 2 * (q * 2 ^ k)
times_pow_suc q k = omega (arith, ap (λ (t : ℕ). q * t) (pow-suc 2 k))

-- `(q << k) | r` is a sum where `r` fits below the shift.
pub bit_or_field : (k q r : ℕ) → r < 2 ^ k → bit_or (q * 2 ^ k) r ≡ q * 2 ^ k + r
bit_or_field zero q r h = ground (arith, bit_or-zero q)
bit_or_field (suc k) q r h = ground (
  arith,
  or_halves (q * 2 ^ suc k) r,
  times_pow_suc q k,
  bit_or_field k q (r / 2) (omega (arith, pow-suc 2 k)),
)

-- An operand that fits below the shift meets only the low part.
pub bit_or_low :
    (k q r s : ℕ) → r < 2 ^ k → s < 2 ^ k → bit_or (q * 2 ^ k + r) s ≡ q * 2 ^ k + bit_or r s
bit_or_low zero q zero zero r_low s_low = ground (arith, bit_or-zero (q * 2 ^ 0 + 0))
bit_or_low zero q (suc r) s r_low s_low = absurd (omega arith)
bit_or_low zero q zero (suc s) r_low s_low = absurd (omega arith)
bit_or_low (suc k) q r s r_low s_low = ground (
  arith,
  or_halves (q * 2 ^ suc k + r) s,
  or_halves r s,
  times_pow_suc q k,
  bit_or_low k q (r / 2) (s / 2) (omega (arith, pow-suc 2 k)) (omega (arith, pow-suc 2 k)),
)

-- A mask of field bits, placed at bit `k`, selects them and clears the rest.
bit_and_shifted :
    (k q r m : ℕ) → r < 2 ^ k → bit_and (q * 2 ^ k + r) (m * 2 ^ k) ≡ bit_and q m * 2 ^ k
bit_and_shifted zero q r m h = ground arith
bit_and_shifted (suc k) q r m h = ground (
  arith,
  and_halves (q * 2 ^ suc k + r) (m * 2 ^ suc k),
  times_pow_suc q k,
  times_pow_suc m k,
  times_pow_suc (bit_and q m) k,
  bit_and_shifted k q (r / 2) m (omega (arith, pow-suc 2 k)),
)

bit_and_low : (k q r : ℕ) → r < 2 ^ k → bit_and (q * 2 ^ k + r) (2 ^ k - 1) ≡ r
bit_and_low zero q r h = rw bit_and-zero (omega arith)
bit_and_low (suc k) q r h = ground (
  arith,
  and_halves (q * 2 ^ suc k + r) (2 ^ suc k - 1),
  times_pow_suc q k,
  pow-suc 2 k,
  bit_and_low k q (r / 2) (omega (arith, pow-suc 2 k)),
)

-- `x & (2^k - 1)` is the remainder.
pub bit_and_mask : (k a : ℕ) → bit_and a (2 ^ k - 1) ≡ a % 2 ^ k
bit_and_mask k a = ground (arith, one-le-pow k 2, bit_and_low k (a / 2 ^ k) (a % 2 ^ k))

-- `x & ((2^j - 1) << k)` keeps bits `k` to `k + j - 1` in place.
pub bit_and_field : (k j a : ℕ) → bit_and a ((2 ^ j - 1) * 2 ^ k) ≡ a / 2 ^ k % 2 ^ j * 2 ^ k
bit_and_field k j a = ground (
  arith,
  one-le-pow k 2,
  bit_and_shifted k (a / 2 ^ k) (a % 2 ^ k) (2 ^ j - 1),
  bit_and_mask j (a / 2 ^ k),
)
