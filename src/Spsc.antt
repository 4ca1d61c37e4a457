-- ===== src/Spsc.antt =====
-- The single-producer single-consumer byte queue: include/femtolog/logging/impl/spsc_queue.h and
-- src/logging/impl/spsc_queue.cc (the paths here are from the repository's src directory). An
-- operation returns its status beside the new queue, and `none` when a copy would leave the buffer.
pub mod Capacity
pub mod Fifo
pub mod Invariant
pub mod Enqueue
pub mod Dequeue
pub mod Runs
pub mod Interleaved
pub mod Bulk
pub mod Tests
pub mod Reserve
use femtolog.Prelude.{
  ℕ, ◌+◌, ◌-◌, List, [], ◌∷◌, Option, none, some, ◌>>=◌, Bool, length, map, ltb, ◌==◌,
  if◌then◌else◌,
}
use femtolog.Word.{add_size, sub_size}
use femtolog.Memory.{Allocator, cache_size, aligned_alloc_wrapper}
use Capacity.{next_power_of_2}
use femtolog.Ring.{copy_in, copy_out, copy_in_all, copy_out_all}

-- `enum class SpscQueueStatus`
pub data Status : Type 0 where
  ok uninitialized underflow overflow size_is_zero : Status

-- `buffer_` is null, or the bytes of the allocation.
pub record Spsc : Type 0 where
  pub buffer : Option (List ℕ)
  pub capacity : ℕ
  pub mask : ℕ
  pub tail_idx : ℕ
  pub tail_cached : ℕ
  pub head_cached_snapshot : ℕ
  pub head_idx : ℕ
  pub head_cached : ℕ
  pub tail_cached_snapshot : ℕ
  pub allocation_size : ℕ

-- The constructor.
abbrev pub new : Spsc
new = record {
  buffer = none;
  capacity = 0;
  mask = 0;
  tail_idx = 0;
  tail_cached = 0;
  head_cached_snapshot = 0;
  head_idx = 0;
  head_cached = 0;
  tail_cached_snapshot = 0;
  allocation_size = 0;
}

-- `used_space` and `available_data`, by `std::size_t` subtraction.
abbrev pub distance : ℕ → ℕ → ℕ
distance tail head = sub_size tail head

-- `if (!buffer_) return` around the body of an operation.
abbrev pub with_buffer {ℓ} : {A : Type ℓ} → Option (List ℕ) → A → (List ℕ → A) → A
with_buffer none missing body = missing
with_buffer (some mem) missing body = body mem

-- `capacity_ - (current_tail - head) < data_size`
abbrev pub lacks_room : Spsc → ℕ → ℕ → Bool
lacks_room q head n = ltb (sub_size q.capacity (distance q.tail_idx head)) n

-- The copy and the publication of the new tail.
commit_enqueue : Spsc → List ℕ → List ℕ → Option (Status × Spsc)
commit_enqueue q mem src = copy_in mem q.mask q.tail_idx src >>= λ mem'. some (
  ok,
  record q {
    buffer = some mem';
    tail_idx = add_size q.tail_idx (length src);
    tail_cached = add_size q.tail_idx (length src);
  },
)

-- `head_cached_snapshot_ = head_idx_.load(...)`
abbrev pub refresh_head : Spsc → Spsc
refresh_head q = record q { head_cached_snapshot = q.head_idx }

-- `enqueue_bytes` once `buffer_` is known not to be null.
enqueue_in : Spsc → List ℕ → List ℕ → Option (Status × Spsc)
unfolding commit_enqueue
enqueue_in q mem src =
    if length src == 0
    then some (size_is_zero, q)
    else (if lacks_room q q.head_cached_snapshot (length src)
        then (if lacks_room q q.head_idx (length src)
            then some (overflow, refresh_head q)
            else commit_enqueue (refresh_head q) mem src)
        else commit_enqueue q mem src)

-- `enqueue_bytes`, with the `data_size` bytes at `data_ptr` as the list `src`.
unfoldable pub enqueue_bytes : Spsc → List ℕ → Option (Status × Spsc)
unfolding enqueue_in
enqueue_bytes q src = with_buffer q.buffer (some (uninitialized, q)) (λ mem. enqueue_in q mem src)

commit_dequeue : Spsc → List ℕ → ℕ → Option (Status × List ℕ × Spsc)
commit_dequeue q mem n = copy_out mem q.mask q.head_idx n >>= λ out.
    some
      (ok, out, record q { head_idx = add_size q.head_idx n; head_cached = add_size q.head_idx n })

-- `tail_cached_snapshot_ = tail_idx_.load(...)`
abbrev pub refresh_tail : Spsc → Spsc
refresh_tail q = record q { tail_cached_snapshot = q.tail_idx }

dequeue_in : Spsc → List ℕ → ℕ → Option (Status × List ℕ × Spsc)
unfolding commit_dequeue
dequeue_in q mem n =
    if n == 0
    then some (size_is_zero, [], q)
    else (if ltb (distance q.tail_cached_snapshot q.head_idx) n
        then (if ltb (distance q.tail_idx q.head_idx) n
            then some (underflow, [], refresh_tail q)
            else commit_dequeue (refresh_tail q) mem n)
        else commit_dequeue q mem n)

-- `dequeue_bytes`; the list in the middle is what is written at `data_ptr`.
unfoldable pub dequeue_bytes : Spsc → ℕ → Option (Status × List ℕ × Spsc)
unfolding dequeue_in
dequeue_bytes q n = with_buffer q.buffer (some (uninitialized, [], q)) (λ mem. dequeue_in q mem n)

peek_in : Spsc → List ℕ → ℕ → Option (Status × List ℕ)
peek_in q mem n =
    if n == 0
    then some (size_is_zero, [])
    else (if ltb (distance q.tail_idx q.head_idx) n
        then some (underflow, [])
        else (copy_out mem q.mask q.head_idx n >>= λ out. some (ok, out)))

-- `peek_bytes`, which is const.
unfoldable pub peek_bytes : Spsc → ℕ → Option (Status × List ℕ)
unfolding peek_in
peek_bytes q n = with_buffer q.buffer (some (uninitialized, [])) (λ mem. peek_in q mem n)

unfoldable pub empty : Spsc → Bool
empty q = q.head_cached == q.tail_idx

unfoldable pub size : Spsc → ℕ
size q = sub_size q.tail_idx q.head_cached

unfoldable pub available_space : Spsc → ℕ
unfolding size
available_space q = sub_size q.capacity (size q)

-- `total_size`, summed with `std::size_t` wrap-around.
abbrev pub total_from : ℕ → List ℕ → ℕ
total_from acc [] = acc
total_from acc (n ∷ sizes) = total_from (add_size acc n) sizes

commit_enqueue_bulk : Spsc → List ℕ → List (List ℕ) → ℕ → Option (Status × Spsc)
commit_enqueue_bulk q mem srcs total = copy_in_all mem q.mask q.tail_idx 0 srcs >>= λ mem'. some (
  ok,
  record q {
    buffer = some mem';
    tail_idx = add_size q.tail_idx total;
    tail_cached = add_size q.tail_idx total;
  },
)

enqueue_bulk_in : Spsc → List ℕ → List (List ℕ) → ℕ → Option (Status × Spsc)
unfolding commit_enqueue_bulk
enqueue_bulk_in q mem srcs total =
    if total == 0
    then some (size_is_zero, q)
    else (if lacks_room q q.head_cached_snapshot total
        then (if lacks_room q q.head_idx total
            then some (overflow, refresh_head q)
            else commit_enqueue_bulk (refresh_head q) mem srcs total)
        else commit_enqueue_bulk q mem srcs total)

-- `enqueue_bulk`, with `count` pieces: the bytes at each `data_ptrs[i]`.
unfoldable pub enqueue_bulk : Spsc → List (List ℕ) → Option (Status × Spsc)
unfolding enqueue_bulk_in
enqueue_bulk q srcs = with_buffer q.buffer (some (uninitialized, q)) λ mem.
    if length srcs == 0
    then some (size_is_zero, q)
    else enqueue_bulk_in q mem srcs (total_from 0 (map length srcs))

commit_dequeue_bulk : Spsc → List ℕ → List ℕ → ℕ → Option (Status × List (List ℕ) × Spsc)
commit_dequeue_bulk q mem sizes total = copy_out_all mem q.mask q.head_idx 0 sizes >>= λ outs.
    some (
      ok,
      outs,
      record q { head_idx = add_size q.head_idx total; head_cached = add_size q.head_idx total },
    )

dequeue_bulk_in : Spsc → List ℕ → List ℕ → ℕ → Option (Status × List (List ℕ) × Spsc)
unfolding commit_dequeue_bulk
dequeue_bulk_in q mem sizes total =
    if total == 0
    then some (size_is_zero, [], q)
    else (if ltb (distance q.tail_cached_snapshot q.head_idx) total
        then (if ltb (distance q.tail_idx q.head_idx) total
            then some (underflow, [], refresh_tail q)
            else commit_dequeue_bulk (refresh_tail q) mem sizes total)
        else commit_dequeue_bulk q mem sizes total)

-- `dequeue_bulk`; the lists in the middle are what is written at each `data_ptrs[i]`.
unfoldable pub dequeue_bulk : Spsc → List ℕ → Option (Status × List (List ℕ) × Spsc)
unfolding dequeue_bulk_in
dequeue_bulk q sizes = with_buffer q.buffer (some (uninitialized, [], q)) λ mem.
    if length sizes == 0
    then some (size_is_zero, [], q)
    else dequeue_bulk_in q mem sizes (total_from 0 sizes)

-- `reserve`: the queue of `next_power_of_2(capacity_bytes)` bytes over a fresh allocation, or the
-- null queue if there is none. (The debug check of `capacity_bytes > 0` is not modelled.)
reserved : ℕ → ℕ → Option (List ℕ) → Spsc
reserved capacity alloc_size none = new
reserved capacity alloc_size (some block) = record new {
  buffer = some block;
  capacity = capacity;
  mask = capacity - 1;
  allocation_size = alloc_size;
}

unfoldable pub reserve : Allocator → ℕ → Option Spsc
unfolding reserved
reserve a capacity_bytes = next_power_of_2 capacity_bytes >>= λ capacity. some (
    reserved capacity (add_size capacity cache_size)
      (aligned_alloc_wrapper a cache_size (add_size capacity cache_size)))
