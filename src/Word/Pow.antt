-- ===== src/Word/Pow.antt =====
-- Powers of two: positivity, sums of exponents, and remainders by one that divides `2 ^ 64`.
use femtolog.Prelude.{
  ℕ, zero, suc, ◌+◌, ◌-◌, ◌*◌, ◌%◌, ◌^◌, ◌≤◌, ◌<◌, ◌≡◌, ap, ◌∙◌, sym, subst, arith,
}
use Prim.Native.Nat.{◌∣◌}
use native.Mathlib.Nat.{
  zero-add, suc-add, sub-add_cancel, pow-suc, mod-mod_of_dvd, dvd-mul_right, pow-le-pow_right,
}

pub two_pow_pos : (k : ℕ) → 0 < 2 ^ k
two_pow_pos zero = omega arith
two_pow_pos (suc k) = omega (arith, pow-suc 2 k, two_pow_pos k)

pub two_pow_suc : (k : ℕ) → 2 ^ suc k ≡ 2 * 2 ^ k
two_pow_suc k = omega (arith, pow-suc 2 k)

pub two_pow_add : (j k : ℕ) → 2 ^ (j + k) ≡ 2 ^ k * 2 ^ j
two_pow_add zero k = omega (arith, ap (λ (n : ℕ). 2 ^ n) (zero-add k))
two_pow_add (suc j) k = omega (
  arith,
  ap (λ (n : ℕ). 2 ^ n) (suc-add j k),
  two_pow_suc (j + k),
  ap (λ (n : ℕ). 2 ^ k * n) (two_pow_suc j),
  two_pow_add j k,
)

pub two_pow-dvd : {k n : ℕ} → k ≤ n → 2 ^ k ∣ 2 ^ n
two_pow-dvd {k} {n} h =
    subst (λ m. 2 ^ k ∣ m) (sym (two_pow_add (n - k) k) ∙ ap (λ (m : ℕ). 2 ^ m) (sub-add_cancel h))
      (dvd-mul_right (2 ^ k) (2 ^ (n - k)))

-- Wrapping an index at `2 ^ 64` does not change its position in a buffer of `2 ^ k` bytes.
pub mod_size-mod : {k : ℕ} (a : ℕ) → k ≤ 64 → a % 2 ^ 64 % 2 ^ k ≡ a % 2 ^ k
mod_size-mod {k} a h = mod-mod_of_dvd (2 ^ k) {b = 2 ^ 64} a (two_pow-dvd h)

pub two_pow-le : {j k : ℕ} → j ≤ k → 2 ^ j ≤ 2 ^ k
two_pow-le h = pow-le-pow_right (omega arith) h

pub two_pow_zero : (k : ℕ) → ¬ (0 < k) → 2 ^ k ≡ 1
two_pow_zero k h = ap (λ (j : ℕ). 2 ^ j) (let e : k ≡ 0 = omega arith in e)
