-- ===== src/Spmc.antt =====
-- The queue for one producer and several consumers: include/femtolog/logging/impl/spmc_queue.h and
-- src/logging/impl/spmc_queue.cc (the paths here are from the repository's src directory). Each
-- operation is cut into its accesses to the shared indices and the buffer; here they run one after the
-- other with no other thread between them, in `Concurrent` in any order.
pub mod Alone
pub mod Start
pub mod Concurrent
pub mod Tests
use femtolog.Prelude.{
  ℕ, ◌+◌, ◌-◌, List, [], ◌∷◌, Option, none, some, ◌>>=◌, Bool, length, map, ltb, ◌==◌,
  if◌then◌else◌,
}
use femtolog.Word.{add_size, sub_size}
use femtolog.Memory.{Allocator, cache_size, aligned_alloc_wrapper}
use femtolog.Spsc.Capacity.{next_power_of_2}
use femtolog.Spsc.{
  Status, ok, uninitialized, underflow, overflow, size_is_zero, distance, with_buffer, total_from,
}
use femtolog.Ring.{copy_in, copy_out, copy_in_all, copy_out_all}

pub record Spmc : Type 0 where
  pub buffer : Option (List ℕ)
  pub capacity : ℕ
  pub mask : ℕ
  pub tail_idx : ℕ
  pub head_idx : ℕ
  pub commit_idx : ℕ
  pub allocation_size : ℕ

-- The constructor.
abbrev pub new : Spmc
new = record {
  buffer = none;
  capacity = 0;
  mask = 0;
  tail_idx = 0;
  head_idx = 0;
  commit_idx = 0;
  allocation_size = 0;
}

-- `capacity_ - used_space < data_size`
abbrev pub lacks_room : Spmc → ℕ → Bool
lacks_room q n = ltb (sub_size q.capacity (distance q.tail_idx q.commit_idx)) n

-- The store of the new tail behind the fence.
abbrev pub publish : Spmc → ℕ → Spmc
publish q n = record q { tail_idx = add_size q.tail_idx n }

-- `head_idx_.fetch_add(data_size)`, whose result is the old index, and `head_idx_.fetch_sub(data_size)`.
abbrev pub claim : Spmc → ℕ → Spmc
claim q n = record q { head_idx = add_size q.head_idx n }

abbrev pub rewind : Spmc → ℕ → Spmc
rewind q n = record q { head_idx = sub_size q.head_idx n }

-- `tail - ticket < data_size`
abbrev pub short_of : Spmc → ℕ → ℕ → Bool
short_of q ticket n = ltb (distance q.tail_idx ticket) n

-- The loop on `compare_exchange_weak`, with no other thread: it ends only when the commit index is at
-- the ticket.
abbrev pub commit : Spmc → ℕ → ℕ → Option Spmc
commit q ticket n =
    if q.commit_idx == ticket then some (record q { commit_idx = add_size ticket n }) else none

enqueue_in : Spmc → List ℕ → List ℕ → Option (Status × Spmc)
enqueue_in q mem src =
    if length src == 0
    then some (size_is_zero, q)
    else (if lacks_room q (length src)
        then some (overflow, q)
        else (copy_in mem q.mask q.tail_idx src >>= λ mem'.
            some (ok, publish (record q { buffer = some mem' }) (length src))))

unfoldable pub enqueue_bytes : Spmc → List ℕ → Option (Status × Spmc)
unfolding enqueue_in
enqueue_bytes q src = with_buffer q.buffer (some (uninitialized, q)) (λ mem. enqueue_in q mem src)

dequeue_in : Spmc → List ℕ → ℕ → Option (Status × List ℕ × Spmc)
dequeue_in q mem n =
    if n == 0
    then some (size_is_zero, [], q)
    else (if short_of (claim q n) q.head_idx n
        then some (underflow, [], rewind (claim q n) n)
        else (copy_out mem q.mask q.head_idx n >>= λ out.
            commit (claim q n) q.head_idx n >>= λ q'. some (ok, out, q')))

unfoldable pub dequeue_bytes : Spmc → ℕ → Option (Status × List ℕ × Spmc)
unfolding dequeue_in
dequeue_bytes q n = with_buffer q.buffer (some (uninitialized, [], q)) (λ mem. dequeue_in q mem n)

peek_in : Spmc → List ℕ → ℕ → Option (Status × List ℕ)
peek_in q mem n =
    if n == 0
    then some (size_is_zero, [])
    else (if ltb (distance q.tail_idx q.commit_idx) n
        then some (underflow, [])
        else (copy_out mem q.mask q.commit_idx n >>= λ out. some (ok, out)))

unfoldable pub peek_bytes : Spmc → ℕ → Option (Status × List ℕ)
unfolding peek_in
peek_bytes q n = with_buffer q.buffer (some (uninitialized, [])) (λ mem. peek_in q mem n)

enqueue_bulk_in : Spmc → List ℕ → List (List ℕ) → ℕ → Option (Status × Spmc)
enqueue_bulk_in q mem srcs total =
    if total == 0
    then some (size_is_zero, q)
    else (if lacks_room q total
        then some (overflow, q)
        else (copy_in_all mem q.mask q.tail_idx 0 srcs >>= λ mem'.
            some (ok, publish (record q { buffer = some mem' }) total)))

unfoldable pub enqueue_bulk : Spmc → List (List ℕ) → Option (Status × Spmc)
unfolding enqueue_bulk_in
enqueue_bulk q srcs = with_buffer q.buffer (some (uninitialized, q)) λ mem.
    if length srcs == 0
    then some (size_is_zero, q)
    else enqueue_bulk_in q mem srcs (total_from 0 (map length srcs))

dequeue_bulk_in : Spmc → List ℕ → List ℕ → ℕ → Option (Status × List (List ℕ) × Spmc)
dequeue_bulk_in q mem sizes total =
    if total == 0
    then some (size_is_zero, [], q)
    else (if short_of (claim q total) q.head_idx total
        then some (underflow, [], rewind (claim q total) total)
        else (copy_out_all mem q.mask q.head_idx 0 sizes >>= λ outs.
            commit (claim q total) q.head_idx total >>= λ q'. some (ok, outs, q')))

unfoldable pub dequeue_bulk : Spmc → List ℕ → Option (Status × List (List ℕ) × Spmc)
unfolding dequeue_bulk_in
dequeue_bulk q sizes = with_buffer q.buffer (some (uninitialized, [], q)) λ mem.
    if length sizes == 0
    then some (size_is_zero, [], q)
    else dequeue_bulk_in q mem sizes (total_from 0 sizes)

unfoldable pub empty : Spmc → Bool
empty q = q.head_idx == q.tail_idx

unfoldable pub size : Spmc → ℕ
size q = sub_size q.tail_idx q.head_idx

unfoldable pub available_space : Spmc → ℕ
unfolding size
available_space q = sub_size q.capacity (size q)

-- The queue that `reserve` leaves, by the block that it was given.
reserved : ℕ → ℕ → Option (List ℕ) → Spmc
reserved capacity alloc_size none = new
reserved capacity alloc_size (some block) = record {
  buffer = some block;
  capacity = capacity;
  mask = sub_size capacity 1;
  tail_idx = 0;
  head_idx = 0;
  commit_idx = 0;
  allocation_size = alloc_size;
}

unfoldable pub reserve : Allocator → ℕ → Option Spmc
unfolding reserved
reserve a capacity_bytes = next_power_of_2 capacity_bytes >>= λ capacity.
    let alloc_size : ℕ = add_size capacity cache_size in
    some (reserved capacity alloc_size (aligned_alloc_wrapper a cache_size alloc_size))
