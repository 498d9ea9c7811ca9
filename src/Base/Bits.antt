-- ===== src/Base/Bits.antt =====
-- `bit_and` and `bit_or` at variables, from the digits that they stand for.
use Prim.Native.Nat.{
  ℕ, zero, suc, ◌+◌, ◌*◌, ◌^◌, ◌/◌, ◌%◌, ◌≤◌, ◌<◌, min, max, digits, bit_and, bit_or,
  bit_and-bitwise, bit_or-bitwise,
}
use mathlib.Core.Path.{◌≡◌, refl, ap, sym, ◌∙◌}
use mathlib.Core.Logic.{◌≢◌, ◌↔◌}
use native.Mathlib.Omega.{arith}

-- The count of digits to go does not matter once it covers the first number.
module _ (z : ℕ → ℕ) (f : ℕ → ℕ → ℕ) where
  digits_count : (n m a b : ℕ) → a ≤ n → a ≤ m → digits z f n a b ≡ digits z f m a b
  digits_count zero zero a b p q = refl
  digits_count zero (suc m) zero b p q = refl
  digits_count zero (suc m) (suc a) b p q = absurd (omega arith)
  digits_count (suc n) zero zero b p q = refl
  digits_count (suc n) zero (suc a) b p q = absurd (omega arith)
  digits_count (suc n) (suc m) zero b p q = refl
  digits_count (suc n) (suc m) (suc a) b p q =
      ap (λ v. v * 2 + f (suc a % 2) (b % 2))
        (digits_count n m (suc a / 2) (b / 2) (omega arith) (omega arith))

  digits_step :
      ((b : ℕ) → z b ≡ z (b / 2) * 2 + f 0 (b % 2))
      → (a b : ℕ) → digits z f a a b ≡ digits z f (a / 2) (a / 2) (b / 2) * 2 + f (a % 2) (b % 2)
  digits_step low zero b = low b
  digits_step low (suc a) b =
      ap (λ v. v * 2 + f (suc a % 2) (b % 2))
        (digits_count a (suc a / 2) (suc a / 2) (b / 2) (omega arith) (omega arith))

pub bit_or_step : (a b : ℕ) → bit_or a b ≡ bit_or (a / 2) (b / 2) * 2 + max (a % 2) (b % 2)
bit_or_step a b =
    bit_or-bitwise a b
    ∙ digits_step (λ b. b) max (λ b. omega arith) a b
    ∙ ap (λ v. v * 2 + max (a % 2) (b % 2)) (sym (bit_or-bitwise (a / 2) (b / 2)))

pub bit_and_step : (a b : ℕ) → bit_and a b ≡ bit_and (a / 2) (b / 2) * 2 + min (a % 2) (b % 2)
bit_and_step a b =
    bit_and-bitwise a b
    ∙ digits_step (λ b. zero) min (λ b. omega arith) a b
    ∙ ap (λ v. v * 2 + min (a % 2) (b % 2)) (sym (bit_and-bitwise (a / 2) (b / 2)))

bit_and-zero : (n a : ℕ) → a ≤ n → bit_and a 0 ≡ 0
bit_and-zero n zero h = refl
bit_and-zero zero (suc a) h = absurd (omega arith)
bit_and-zero (suc n) (suc a) h =
    omega (arith, bit_and_step (suc a) 0, bit_and-zero n (suc a / 2) (omega arith))

bit_or-zero : (n a : ℕ) → a ≤ n → bit_or a 0 ≡ a
bit_or-zero n zero h = refl
bit_or-zero zero (suc a) h = absurd (omega arith)
bit_or-zero (suc n) (suc a) h =
    omega (arith, bit_or_step (suc a) 0, bit_or-zero n (suc a / 2) (omega arith))

-- A test of the lowest bit.
pub bit_and-one : (a : ℕ) → bit_and a 1 ≡ a % 2
bit_and-one a = omega (arith, bit_and_step a 1, bit_and-zero (a / 2) (a / 2) (omega arith))

pub bit_or-one_odd : (a : ℕ) → bit_or a 1 % 2 ≡ 1
bit_or-one_odd a = omega (arith, bit_or_step a 1)

-- `n` halvings, a shift to the right.
abbrev pub shr : ℕ → ℕ → ℕ
shr zero a = a
shr (suc n) a = shr n (a / 2)

pub shr-bit_or : (n a b : ℕ) → shr n (bit_or a b) ≡ bit_or (shr n a) (shr n b)
shr-bit_or zero a b = refl
shr-bit_or (suc n) a b = ap (shr n) (omega (arith, bit_or_step a b)) ∙ shr-bit_or n (a / 2) (b / 2)

shr-bit_and : (n a b : ℕ) → shr n (bit_and a b) ≡ bit_and (shr n a) (shr n b)
shr-bit_and zero a b = refl
shr-bit_and (suc n) a b =
    ap (shr n) (omega (arith, bit_and_step a b)) ∙ shr-bit_and n (a / 2) (b / 2)

-- Flags below bit 10 leave the upper part of a word as it is.
pub upper-bit_or : (a b : ℕ) → b < 1024 → bit_or a b / 1024 ≡ a / 1024
upper-bit_or a b h =
    let e = shr-bit_or 10 a b in
    let none_high : shr 10 b ≡ 0 = omega arith in
    let same : bit_or (shr 10 a) (shr 10 b) ≡ shr 10 a =
      ap (bit_or (shr 10 a)) none_high ∙ bit_or-zero (shr 10 a) (shr 10 a) (omega arith) in
    omega (arith, e, same)

-- Bit `k` of a number.
abbrev pub bit : ℕ → ℕ → ℕ
bit zero a = a % 2
bit (suc k) a = bit k (a / 2)

pub bit-le : (k a : ℕ) → bit k a ≤ 1
bit-le zero a = omega arith
bit-le (suc k) a = bit-le k (a / 2)

pow_suc : (k : ℕ) → 2 ^ suc k ≡ 2 ^ k * 2
pow_suc k = omega arith

half_pow : (k : ℕ) → 2 ^ suc k / 2 ≡ 2 ^ k
half_pow k = omega (arith, pow_suc k)

-- A test with one bit set is a test of this bit.
pub bit_and-pow : (k a : ℕ) → (bit_and a (2 ^ k) ≡ 0) ↔ (bit k a ≡ 0)
bit_and-pow zero a = (λ e. omega (arith, e, bit_and-one a), λ e. omega (arith, e, bit_and-one a))
bit_and-pow (suc k) a =
    let (l, r) = bit_and-pow k (a / 2) in
    let step = bit_and_step a (2 ^ suc k) in
    let half = ap (bit_and (a / 2)) (half_pow k) in
    (
      λ e. l (omega (arith, e, step, half, pow_suc k)),
      λ e. omega (arith, r e, step, half, pow_suc k),
    )

bit_or_half : (k a : ℕ) → bit_or a (2 ^ suc k) / 2 ≡ bit_or (a / 2) (2 ^ k)
bit_or_half k a =
    omega (arith, bit_or_step a (2 ^ suc k), ap (bit_or (a / 2)) (half_pow k), pow_suc k)

-- A number with one bit set.
pub bit-bit_or_self : (k a : ℕ) → bit k (bit_or a (2 ^ k)) ≡ 1
bit-bit_or_self zero a = bit_or-one_odd a
bit-bit_or_self (suc k) a = ap (bit k) (bit_or_half k a) ∙ bit-bit_or_self k (a / 2)

pub bit-bit_or_ne : (j k a : ℕ) → j ≢ k → bit j (bit_or a (2 ^ k)) ≡ bit j a
bit-bit_or_ne zero zero a h = absurd (h refl)
bit-bit_or_ne zero (suc k) a h = omega (arith, bit_or_step a (2 ^ suc k), pow_suc k)
bit-bit_or_ne (suc j) zero a h =
    ap (bit j) (omega (arith, bit_or_step a 1, bit_or-zero (a / 2) (a / 2) (omega arith)))
bit-bit_or_ne (suc j) (suc k) a h =
    ap (bit j) (bit_or_half k a) ∙ bit-bit_or_ne j k (a / 2) (λ e. h (ap suc e))
