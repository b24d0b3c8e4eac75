-- ===== src/Wire/Words.antt =====
-- Masks, shifts and disjoint fields of machine words, as arithmetic.
use Prim.Native.Nat.{digits, bit_and-bitwise, bit_or-bitwise, min, max}
use native.Mathlib.Nat.{pow-suc, one-le-pow}
use narth_network.Base.{
  ℕ, zero, suc, ◌+◌, ◌-◌, ◌*◌, ◌/◌, ◌%◌, ◌^◌, ◌≤◌, ◌<◌, bit_and, bit_or, ◌≡◌, refl, ap, arith,
}

-- The digits of a pair of numbers do not depend on the count, once it covers the first number.
digits_count :
    (z : ℕ → ℕ) (f : ℕ → ℕ → ℕ) (n m a b : ℕ) → a ≤ n → a ≤ m → digits z f n a b ≡ digits z f m a b
digits_count z f zero zero a b p q = refl
digits_count z f (suc n) zero zero b p q = refl
digits_count z f zero (suc m) zero b p q = refl
digits_count z f (suc n) zero (suc a) b p q = absurd (omega arith)
digits_count z f zero (suc m) (suc a) b p q = absurd (omega arith)
digits_count z f (suc n) (suc m) zero b p q = refl
digits_count z f (suc n) (suc m) (suc a) b p q =
    let half = digits_count z f n m (suc a / 2) (b / 2) (omega arith) (omega arith) in rw half

pub bit_and-halves : (a b : ℕ) → bit_and a b ≡ bit_and (a / 2) (b / 2) * 2 + min (a % 2) (b % 2)
bit_and-halves zero b = omega (arith, bit_and-bitwise 0 b, bit_and-bitwise 0 (b / 2))
bit_and-halves (suc a) b =
    let h = suc a / 2 in
    omega (
      arith,
      bit_and-bitwise (suc a) b,
      bit_and-bitwise h (b / 2),
      digits_count (λ _. 0) min a h h (b / 2) (omega arith) (omega arith),
    )

bit_or-halves : (a b : ℕ) → bit_or a b ≡ bit_or (a / 2) (b / 2) * 2 + max (a % 2) (b % 2)
bit_or-halves zero b = omega (arith, bit_or-bitwise 0 b, bit_or-bitwise 0 (b / 2))
bit_or-halves (suc a) b =
    let h = suc a / 2 in
    omega (
      arith,
      bit_or-bitwise (suc a) b,
      bit_or-bitwise h (b / 2),
      digits_count (λ x. x) max a h h (b / 2) (omega arith) (omega arith),
    )

zero-bit_and : (b : ℕ) → bit_and 0 b ≡ 0
zero-bit_and b = bit_and-bitwise 0 b

-- A mask keeps no more than there is.
bit_and-le_below : (k a b : ℕ) → a ≤ k → bit_and a b ≤ a
bit_and-le_below k zero b h = omega (arith, zero-bit_and b)
bit_and-le_below zero (suc a) b h = absurd (omega arith)
bit_and-le_below (suc k) (suc a) b h =
    omega (arith, bit_and-halves (suc a) b, bit_and-le_below k (suc a / 2) (b / 2) (omega arith))

pub bit_and-le : (a b : ℕ) → bit_and a b ≤ a
bit_and-le a b = bit_and-le_below a a b (omega arith)

bit_or-zero_below : (n a : ℕ) → a ≤ n → bit_or a 0 ≡ a
bit_or-zero_below n zero h = refl
bit_or-zero_below zero (suc a) h = absurd (omega arith)
bit_or-zero_below (suc n) (suc a) h =
    omega (arith, bit_or-halves (suc a) 0, bit_or-zero_below n (suc a / 2) (omega arith))

bit_and-zero_below : (n a : ℕ) → a ≤ n → bit_and a 0 ≡ 0
bit_and-zero_below n zero h = refl
bit_and-zero_below zero (suc a) h = absurd (omega arith)
bit_and-zero_below (suc n) (suc a) h =
    omega (arith, bit_and-halves (suc a) 0, bit_and-zero_below n (suc a / 2) (omega arith))

-- `a | 0` and `a & 0`
bit_or-zero : (a : ℕ) → bit_or a 0 ≡ a
bit_or-zero a = bit_or-zero_below a a (omega arith)

bit_and-zero : (a : ℕ) → bit_and a 0 ≡ 0
bit_and-zero a = bit_and-zero_below a a (omega arith)

mul_pow_suc : (q k : ℕ) → q * 2 ^ suc k ≡ 2 * (q * 2 ^ k)
mul_pow_suc q k = omega (arith, ap (λ (t : ℕ). q * t) (pow-suc 2 k))

-- A multiple of `2 ^ k` and a number below it share no bit.
pub bit_or-add : (k q r : ℕ) → r < 2 ^ k → bit_or (q * 2 ^ k) r ≡ q * 2 ^ k + r
bit_or-add zero q r h = ground (arith, bit_or-zero q)
bit_or-add (suc k) q r h =
    ground
      (arith, bit_or-halves (q * 2 ^ suc k) r, mul_pow_suc q k, pow-suc 2 k, bit_or-add k q (r / 2))

bit_and-low : (k q r : ℕ) → r < 2 ^ k → bit_and (q * 2 ^ k + r) (2 ^ k - 1) ≡ r
bit_and-low zero q r h = ground (arith, bit_and-zero (q * 1 + r))
bit_and-low (suc k) q r h = ground (
  arith,
  bit_and-halves (q * 2 ^ suc k + r) (2 ^ suc k - 1),
  mul_pow_suc q k,
  pow-suc 2 k,
  bit_and-low k q (r / 2),
)

-- A mask of `k` low bits keeps the remainder by `2 ^ k`.
pub bit_and-mask : (k a : ℕ) → bit_and a (2 ^ k - 1) ≡ a % 2 ^ k
bit_and-mask k a = ground (arith, one-le-pow k 2, bit_and-low k (a / 2 ^ k) (a % 2 ^ k))

-- A mask of `n` bits above the low `k` clears those.
pub bit_and-high :
    (k n q r : ℕ)
    → r < 2 ^ k
    → q < 2 ^ n
    → bit_and (q * 2 ^ k + r) ((2 ^ n - 1) * 2 ^ k) ≡ q * 2 ^ k
bit_and-high zero n q r h l =
    let same : (2 ^ n - 1) * 2 ^ 0 ≡ 2 ^ n - 1 = omega arith in
    rw same (ground (arith, bit_and-low n 0 q))
bit_and-high (suc k) n q r h l = ground (
  arith,
  bit_and-halves (q * 2 ^ suc k + r) ((2 ^ n - 1) * 2 ^ suc k),
  mul_pow_suc (2 ^ n - 1) k,
  mul_pow_suc q k,
  pow-suc 2 k,
  bit_and-high k n q (r / 2),
)
