-- ===== src/Word/Bits.antt =====
-- `x & (2 ^ k - 1)` and `n & (n - 1)`, from the digit recursion that `bit_and` stands for.
use Prim.Native.Nat.{digits, bit_and-bitwise}
use femtolog.Prelude.{
  ℕ, zero, suc, ◌+◌, ◌-◌, ◌*◌, ◌/◌, ◌%◌, ◌^◌, ◌≤◌, ◌<◌, min, bit_and, ◌≡◌, ◌≢◌, refl, ap, ap₂, ◌∙◌,
  arith,
}
use native.Mathlib.Nat.{mod-add-div, div-div-eq-div-mul}
use native.Mathlib.Decide.{ℕ_discrete}
use femtolog.Word.Pow.{two_pow_pos, two_pow_suc}

-- `x & mask` over as many digits as `fuel` allows.
abbrev conjoin : ℕ → ℕ → ℕ → ℕ
conjoin fuel x mask = digits (λ rest. zero) min fuel x mask

-- The two lowest steps of a remainder by an even number.
mod_double : (a m : ℕ) → a % (2 * m) ≡ a / 2 % m * 2 + a % 2
mod_double a m = omega (
  arith,
  mod-add-div a (2 * m),
  mod-add-div (a / 2) m,
  ap (λ (q : ℕ). 2 * m * q) (div-div-eq-div-mul a 2 m),
)

conjoin-zero : (fuel x : ℕ) → conjoin fuel x 0 ≡ 0
conjoin-zero zero x = refl
conjoin-zero (suc fuel) zero = refl
conjoin-zero (suc fuel) (suc x) = omega (arith, conjoin-zero fuel (suc x / 2))

conjoin-mask : (k fuel x : ℕ) → x ≤ fuel → conjoin fuel x (2 ^ k - 1) ≡ x % 2 ^ k
conjoin-mask zero fuel x enough = omega (arith, conjoin-zero fuel x)
conjoin-mask (suc k) zero zero enough = omega arith
conjoin-mask (suc k) zero (suc x) enough = absurd (omega arith)
conjoin-mask (suc k) (suc fuel) zero enough = omega arith
conjoin-mask (suc k) (suc fuel) (suc x) enough =
    rw (two_pow_suc k, halved)
      (omega (
        arith,
        two_pow_pos k,
        mod_double (suc x) (2 ^ k),
        conjoin-mask k fuel (suc x / 2) (omega arith),
      ))
  where
    halved : (2 * 2 ^ k - 1) / 2 ≡ 2 ^ k - 1
    halved = omega (arith, two_pow_pos k)

-- Masking with `2 ^ k - 1` is the remainder by `2 ^ k`.
pub bit_and-mask : (k x : ℕ) → bit_and x (2 ^ k - 1) ≡ x % 2 ^ k
bit_and-mask k x = bit_and-bitwise x (2 ^ k - 1) ∙ conjoin-mask k x x (omega arith)

conjoin_self : (fuel x : ℕ) → x ≤ fuel → conjoin fuel x x ≡ x
conjoin_self zero zero enough = refl
conjoin_self zero (suc x) enough = absurd (omega arith)
conjoin_self (suc fuel) zero enough = refl
conjoin_self (suc fuel) (suc x) enough = omega (arith, conjoin_self fuel (suc x / 2) (omega arith))

conjoin_pred : (fuel x : ℕ) → suc x ≤ fuel → conjoin fuel (suc x) x ≡ 0 → (k : ℕ) × (suc x ≡ 2 ^ k)
conjoin_pred zero x enough e = absurd (omega arith)
conjoin_pred (suc fuel) x enough e = elim (ℕ_discrete (suc x % 2) 0) [
  | no odd ↦ (0, single odd)
  | yes even ↦
      let (k, half) = conjoin_pred fuel (suc x / 2 - 1) (omega arith) (halves even) in
      (suc k, omega (arith, two_pow_suc k))
]
  where
    single : suc x % 2 ≢ 0 → suc x ≡ 1
    single odd = omega (
      arith,
      ap (conjoin fuel (suc x / 2)) (let half : x / 2 ≡ suc x / 2 = omega arith in half),
      conjoin_self fuel (suc x / 2) (omega arith),
    )

    halves : suc x % 2 ≡ 0 → conjoin fuel (suc (suc x / 2 - 1)) (suc x / 2 - 1) ≡ 0
    halves even = omega (
      arith,
      ap (λ (n : ℕ). conjoin fuel n (suc x / 2 - 1))
          (let whole : suc (suc x / 2 - 1) ≡ suc x / 2 = omega arith in whole),
      ap (conjoin fuel (suc x / 2)) (let half : x / 2 ≡ suc x / 2 - 1 = omega arith in half),
    )

-- A positive number that shares no digit with its predecessor is a power of two.
pub bit_and_pred : (n : ℕ) → 0 < n → bit_and n (n - 1) ≡ 0 → (k : ℕ) × (n ≡ 2 ^ k)
bit_and_pred zero pos e = absurd (omega arith)
bit_and_pred (suc n) pos e = conjoin_pred (suc n) n (omega arith) (
    omega (
      arith,
      bit_and-bitwise (suc n) n,
      ap (bit_and (suc n)) (let before : suc n - 1 ≡ n = omega arith in before),
    ))

-- The law for the lowest digit.
conjoin_fuel : (n m a b : ℕ) → a ≤ n → a ≤ m → conjoin n a b ≡ conjoin m a b
conjoin_fuel zero zero a b p q = refl
conjoin_fuel zero (suc m) zero b p q = refl
conjoin_fuel zero (suc m) (suc a) b p q = absurd (omega arith)
conjoin_fuel (suc n) zero zero b p q = refl
conjoin_fuel (suc n) zero (suc a) b p q = absurd (omega arith)
conjoin_fuel (suc n) (suc m) zero b p q = refl
conjoin_fuel (suc n) (suc m) (suc a) b p q =
    omega (arith, conjoin_fuel n m (suc a / 2) (b / 2) (omega arith) (omega arith))

lowest_digit : (a b : ℕ) → bit_and a b ≡ bit_and (a / 2) (b / 2) * 2 + min (a % 2) (b % 2)
lowest_digit zero b = omega (arith, bit_and-bitwise 0 b, bit_and-bitwise 0 (b / 2))
lowest_digit (suc a) b = omega (
  arith,
  bit_and-bitwise (suc a) b,
  bit_and-bitwise (suc a / 2) (b / 2),
  conjoin_fuel a (suc a / 2) (suc a / 2) (b / 2) (omega arith) (omega arith),
)

bit_and_self : (a : ℕ) → bit_and a a ≡ a
bit_and_self a = bit_and-bitwise a a ∙ conjoin_self a a (omega arith)

conjoin-le : (fuel a b : ℕ) → conjoin fuel a b ≤ a
conjoin-le zero a b = omega arith
conjoin-le (suc fuel) zero b = omega arith
conjoin-le (suc fuel) (suc a) b = omega (arith, conjoin-le fuel (suc a / 2) (b / 2))

pub bit_and-le : (a b : ℕ) → bit_and a b ≤ a
bit_and-le a b = omega (arith, bit_and-bitwise a b, conjoin-le a a b)

-- `n & (n - 1)` clears the lowest set digit.
pub clear_odd : (m : ℕ) → bit_and (suc (2 * m)) (suc (2 * m) - 1) ≡ 2 * m
clear_odd m =
    lowest_digit (suc (2 * m)) (suc (2 * m) - 1)
    ∙ ap₂ (λ (a b : ℕ). bit_and a b * 2 + min (suc (2 * m) % 2) ((suc (2 * m) - 1) % 2))
        (let half : suc (2 * m) / 2 ≡ m = omega arith in half)
        (let half : (suc (2 * m) - 1) / 2 ≡ m = omega arith in half)
    ∙ omega (arith, bit_and_self m)

pub clear_even : (m : ℕ) → 0 < m → bit_and (2 * m) (2 * m - 1) ≡ 2 * bit_and m (m - 1)
clear_even m pos =
    lowest_digit (2 * m) (2 * m - 1)
    ∙ ap₂ (λ (a b : ℕ). bit_and a b * 2 + min (2 * m % 2) ((2 * m - 1) % 2))
        (let half : 2 * m / 2 ≡ m = omega arith in half)
        (let half : (2 * m - 1) / 2 ≡ m - 1 = omega arith in half)
    ∙ omega arith
