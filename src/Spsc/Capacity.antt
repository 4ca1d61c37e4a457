-- ===== src/Spsc/Capacity.antt =====
-- `next_power_of_2` of include/femtolog/logging/impl/spsc_queue.h (spmc_queue.h has the same text),
-- and the mask test `n & (n - 1)` that it makes.
use femtolog.Prelude.{
  ℕ, zero, suc, ◌+◌, ◌-◌, ◌*◌, ◌/◌, ◌^◌, ◌≤◌, ◌<◌, bit_and, Option, none, some, ◌≡◌, refl, ap, ltb,
  leb, ◌==◌, if◌then◌else◌, arith, Bool-cases, inl, inr, ==_iff, leb→le, lt→ltb,
}
use femtolog.Word.{bit_and_pred, two_pow_suc, two_pow-le, two_pow_zero}
use native.Mathlib.Decide.{dec_lt}

-- The number of binary digits of `n`, at most `fuel`.
bit_width : ℕ → ℕ → ℕ
bit_width zero n = 0
bit_width (suc fuel) n = if n == 0 then 0 else suc (bit_width fuel (n / 2))

-- `__builtin_clzll(n)`: the zeros above the highest set bit of a 64-bit word.
unfoldable pub clzll : ℕ → ℕ
unfolding bit_width
clzll n = 64 - bit_width 64 n

-- `std::size_t(1) << s`, undefined for a shift by the width of the type or more.
unfoldable pub shift_one : ℕ → Option ℕ
shift_one s = if ltb s 64 then some (2 ^ s) else none

unfoldable pub next_power_of_2 : ℕ → Option ℕ
unfolding clzll shift_one
next_power_of_2 n =
    if leb n 1
    then some 2
    else (if bit_and n (n - 1) == 0 then some n else shift_one (64 - clzll (n - 1)))

bit_width_bounds :
    (fuel n : ℕ)
    → n < 2 ^ fuel
    → (n < 2 ^ bit_width fuel n)
      × (2 ^ bit_width fuel n ≤ 2 * n + (1 - n))
      × (bit_width fuel n ≤ fuel)
unfolding bit_width
bit_width_bounds zero n h = omega arith
bit_width_bounds (suc fuel) n h = elim (Bool-cases (n == 0)) [
  | inl z ↦ rw z (omega (arith, (==_iff n 0).0 z))
  | inr nz ↦ rw nz (
      ground (
        arith,
        two_pow_suc fuel,
        two_pow_suc (bit_width fuel (n / 2)),
        bit_width_bounds fuel (n / 2),
      ))
]

-- A power of two that is at least `n` and below `2 n` is the least one.
least_power : (n k j : ℕ) → 2 ^ k < 2 * n → n ≤ 2 ^ j → 2 ^ k ≤ 2 ^ j
least_power n k j small h = elim (dec_lt j k) [
  | yes lt ↦ absurd (omega (arith, two_pow_suc j, two_pow-le {j = suc j} {k = k} lt))
  | no ge ↦ two_pow-le (omega arith)
]

exponent-lt : (k : ℕ) → 2 ^ k ≤ 2 ^ 63 → k < 64
exponent-lt k h = elim (dec_lt k 64) [
  | yes lt ↦ lt
  | no ge ↦ absurd (omega (arith, two_pow-le {j = 64} {k = k} (omega arith)))
]

-- What `next_power_of_2` returns: a power of two from 2 on that holds `n`, and the least such.
pub record IsNextPower (n : ℕ) (result : Option ℕ) : Type 0 where
  pub exponent : ℕ
  pub returned : result ≡ some (2 ^ exponent)
  pub positive : 0 < exponent
  pub fits_word : exponent < 64
  pub holds : n ≤ 2 ^ exponent
  pub least : (j : ℕ) → 0 < j → n ≤ 2 ^ j → 2 ^ exponent ≤ 2 ^ j

already_power : (n : ℕ) → 1 < n → n ≤ 2 ^ 63 → bit_and n (n - 1) ≡ 0 → IsNextPower n (some n)
already_power n p h e =
    let (k, power) = bit_and_pred n (omega arith) e in
    record {
      exponent = k;
      returned = ap some power;
      positive = elim (dec_lt 0 k) [
        | yes pos ↦ pos
        | no z ↦ absurd (omega (arith, two_pow_zero k z))
      ];
      fits_word = exponent-lt k (omega arith);
      holds = omega arith;
      least = λ j _ hj. omega arith;
    }

rounded_up : (n : ℕ) → 1 < n → n ≤ 2 ^ 63 → IsNextPower n (shift_one (64 - clzll (n - 1)))
unfolding clzll shift_one
rounded_up n p h = record {
  exponent = width;
  returned = rw (shift, lt→ltb width 64 small);
  positive = elim (dec_lt 0 width) [
    | yes pos ↦ pos
    | no z ↦ absurd (omega (arith, bounds, two_pow_zero width z))
  ];
  fits_word = small;
  holds = omega (arith, bounds);
  least = λ j _ hj. least_power n width j (omega (arith, bounds)) hj;
}
  where
    width : ℕ
    width = bit_width 64 (n - 1)

    bounds : (n - 1 < 2 ^ width) × (2 ^ width ≤ 2 * (n - 1) + (1 - (n - 1))) × (width ≤ 64)
    bounds = bit_width_bounds 64 (n - 1) (omega arith)

    shift : 64 - (64 - width) ≡ width
    shift = omega (arith, bounds)

    small : width < 64
    small = elim (dec_lt width 64) [
      | yes lt ↦ lt
      | no ge ↦ absurd (omega (arith, bounds, two_pow-le {j = 64} {k = width} (omega arith)))
    ]

-- `next_power_of_2(n)`, up to `2 ^ 63`, shifts by less than the width of the word and returns the
-- least power of two, 2 at least, that is not below `n`.
pub next_power_of_2_lem : (n : ℕ) → n ≤ 2 ^ 63 → IsNextPower n (next_power_of_2 n)
unfolding next_power_of_2
next_power_of_2_lem n h = elim (Bool-cases (leb n 1)) [
  | inl tiny ↦ rw tiny (record {
    exponent = 1;
    returned = refl;
    positive = omega arith;
    fits_word = omega arith;
    holds = omega (arith, leb→le n 1 tiny);
    least = λ j pos _. two_pow-le {j = 1} {k = j} pos;
  })
  | inr more ↦ rw more (elim (Bool-cases (bit_and n (n - 1) == 0)) [
    | inl power ↦ rw power (already_power n (ground arith) h ((==_iff _ 0).0 power))
    | inr other ↦ rw other (rounded_up n (ground arith) h)
  ])
]
