-- ===== src/Spmc/Start.antt =====
-- `reserve` starts the queue for several consumers.
use femtolog.Prelude.{
  ℕ, ◌^◌, ◌≤◌, ◌<◌, List, [], Option, none, some, ◌≡◌, ◌⊎◌, inl, inr, refl, length, arith,
  Option-cases,
}
use femtolog.Word.{add_size, two_pow-le, two_pow_pos}
use femtolog.Ring.Window.{window}
use femtolog.Memory.{Allocator, cache_size, aligned_alloc_wrapper}
use femtolog.Spsc.Capacity.{next_power_of_2, next_power_of_2_lem}
use femtolog.Spsc.Reserve.{aligned_alloc_wrapper-length}
use femtolog.Spmc.{Spmc, new, reserved, reserve}
use femtolog.Spmc.Concurrent.{System, ready}
use femtolog.Spmc.Concurrent.Delivery.{Inv}

-- The threads before their first calls.
abbrev pub start : Spmc → System
start q = record { queue = q; producer = ready; calls = []; sent = []; returned = [] }

reserved-Inv :
    (k : ℕ)
    → k < 64
    → (block : List ℕ) → length block ≡ add_size (2 ^ k) cache_size
    → Inv (2 ^ k) (start (reserved (2 ^ k) (add_size (2 ^ k) cache_size) (some block)))
unfolding reserved window
reserved-Inv k small block size = record {
  mem = block;
  bytes = [];
  allocated = refl;
  ring = record {
    exponent = k;
    small = small;
    power = refl;
    capacity = refl;
    mask = omega (arith, two_pow-le {j = k} {k = 63} (omega arith), two_pow_pos k);
    storage = omega (arith, size, two_pow-le {j = k} {k = 63} (omega arith));
    tail_word = omega arith;
    commit_word = omega arith;
    used = omega arith;
    holds = refl;
  };
  pending = tt;
  head_word = omega arith;
  tiles = refl;
  whole = refl;
}

-- What `reserve` leaves: a queue whose capacity, that of `next_power_of_2`, holds the bytes asked for,
-- and from which the threads start, or the null queue if the allocation fails.
abbrev pub Started : Allocator → ℕ → Option Spmc → Type 0
Started a n result =
    (cap : ℕ) × (next_power_of_2 n ≡ some cap)
    × (n ≤ cap)
    × (((aligned_alloc_wrapper a cache_size (add_size cap cache_size) ≡ none) × (result ≡ some new))
        ⊎ ((q : Spmc) × (result ≡ some q) × Inv cap (start q)))

-- Up to `2 ^ 63` bytes, `reserve` leaves a queue whose capacity holds the bytes asked for, in a state from
-- which the threads start, or the null queue if the allocator gives no block.
pub reserve-Started : (a : Allocator) (n : ℕ) → n ≤ 2 ^ 63 → Started a n (reserve a n)
unfolding reserve reserved
reserve-Started a n h =
    let next = next_power_of_2_lem n h in
    let cap : ℕ = 2 ^ next.exponent in
    elim (Option-cases (aligned_alloc_wrapper a cache_size (add_size cap cache_size))) [
      | inl failed ↦ (cap, next.returned, next.holds, inl (failed, rw (next.returned, failed)))
      | inr (block, given) ↦ (
        cap,
        next.returned,
        next.holds,
        inr (
          reserved cap (add_size cap cache_size) (some block),
          rw (next.returned, given),
          reserved-Inv next.exponent next.fits_word block
              (aligned_alloc_wrapper-length a cache_size (add_size cap cache_size) given),
        ),
      )
    ]
