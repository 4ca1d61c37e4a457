-- ===== src/Spsc/Reserve.antt =====
-- `reserve` and the operations of a queue without a buffer.
use femtolog.Prelude.{
  ℕ, ◌^◌, ◌≤◌, ◌<◌, List, [], Option, none, some, ◌≡◌, ◌≢◌, ◌⊎◌, inl, inr, refl, length, arith,
  Option-cases,
}
use femtolog.Word.{add_size, two_pow-le}
use femtolog.Ring.Window.{window}
use femtolog.Memory.{Allocator, cache_size, aligned_alloc_wrapper}
use femtolog.Spsc.{
  uninitialized, Spsc, new, reserved, reserve, enqueue_bytes, dequeue_bytes, peek_bytes,
  enqueue_bulk, dequeue_bulk,
}
use femtolog.Spsc.Capacity.{next_power_of_2, next_power_of_2_lem}
use femtolog.Spsc.Invariant.{Represents}

pub aligned_alloc_wrapper-length :
    (a : Allocator) (alignment size : ℕ) {block : List ℕ}
    → aligned_alloc_wrapper a alignment size ≡ some block
    → length block ≡ size
unfolding aligned_alloc_wrapper
aligned_alloc_wrapper-length a alignment size h = ground (arith, a.block_size alignment size)

-- A fresh block of the size asked for makes an empty queue.
reserved-Represents :
    (k : ℕ)
    → 0 < k
    → k < 64
    → (block : List ℕ) → length block ≡ add_size (2 ^ k) cache_size
    → Represents (2 ^ k) (reserved (2 ^ k) (add_size (2 ^ k) cache_size) (some block)) []
unfolding reserved window
reserved-Represents k pos small block size = record {
  mem = block;
  exponent = k;
  positive = pos;
  small = small;
  power = refl;
  allocated = refl;
  capacity = refl;
  mask = refl;
  storage = size;
  slack = omega (arith, two_pow-le {j = k} {k = 63} (omega arith));
  head_word = omega arith;
  tail_word = omega arith;
  head_snapshot_word = omega arith;
  tail_snapshot_word = omega arith;
  used = omega arith;
  head_seen = omega arith;
  head_lags = omega arith;
  tail_lags = omega arith;
  tail_mirror = refl;
  head_mirror = refl;
  holds = refl;
}

-- `posix_memalign` has no block for a queue of `cap` bytes and a cache line more.
abbrev pub Refuses : Allocator → ℕ → Type 0
Refuses a cap = (a.posix_memalign cache_size (add_size cap cache_size)).0 ≢ 0

refused :
    (a : Allocator) (cap : ℕ)
    → aligned_alloc_wrapper a cache_size (add_size cap cache_size) ≡ none
    → Refuses a cap
unfolding aligned_alloc_wrapper
refused a cap e done = ground (arith, e, done)

granted :
    (a : Allocator) (cap : ℕ) {block : List ℕ}
    → aligned_alloc_wrapper a cache_size (add_size cap cache_size) ≡ some block
    → ¬ (Refuses a cap)
unfolding aligned_alloc_wrapper
granted a cap e failed = ground (arith, e, failed)

-- What `reserve` leaves: an empty queue whose capacity is the least power of two, from 2 on, that
-- holds the bytes asked for, or, if the allocation fails, the null queue.
abbrev pub Reserved : Allocator → ℕ → Option Spsc → Type 0
Reserved a n result =
    (cap : ℕ) × (next_power_of_2 n ≡ some cap)
    × (n ≤ cap)
    × ((Refuses a cap × (result ≡ some new))
        ⊎ ((¬ (Refuses a cap)) × (q : Spsc) × (result ≡ some q) × Represents cap q []))

-- Up to `2 ^ 63` bytes, `reserve` shifts by less than the word's width and leaves an empty queue
-- whose capacity, that of `next_power_of_2`, holds the bytes asked for, or the null queue if the
-- allocator gives no block.
pub reserve_lem : (a : Allocator) (n : ℕ) → n ≤ 2 ^ 63 → Reserved a n (reserve a n)
unfolding reserve reserved
reserve_lem a n h =
    let next = next_power_of_2_lem n h in
    let cap : ℕ = 2 ^ next.exponent in
    elim (Option-cases (aligned_alloc_wrapper a cache_size (add_size cap cache_size))) [
      | inl failed ↦
          (cap, next.returned, next.holds, inl (refused a cap failed, rw (next.returned, failed)))
      | inr (block, given) ↦ (
        cap,
        next.returned,
        next.holds,
        inr (
          granted a cap given,
          reserved cap (add_size cap cache_size) (some block),
          rw (next.returned, given),
          reserved-Represents next.exponent next.positive next.fits_word block
              (aligned_alloc_wrapper-length a cache_size (add_size cap cache_size) given),
        ),
      )
    ]

-- Without a buffer every operation reports it and changes nothing.
pub null_queue :
    (q : Spsc)
    → q.buffer ≡ none
    → (src : List ℕ) (srcs : List (List ℕ)) (n : ℕ) (sizes : List ℕ)
    → (enqueue_bytes q src ≡ some (uninitialized, q))
      × (dequeue_bytes q n ≡ some (uninitialized, [], q))
      × (peek_bytes q n ≡ some (uninitialized, []))
      × (enqueue_bulk q srcs ≡ some (uninitialized, q))
      × (dequeue_bulk q sizes ≡ some (uninitialized, [], q))
unfolding enqueue_bytes dequeue_bytes peek_bytes enqueue_bulk dequeue_bulk
null_queue q e src srcs n sizes =
    (ground arith, ground arith, ground arith, ground arith, ground arith)
