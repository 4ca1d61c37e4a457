-- ===== src/Spsc/Tests.antt =====
-- Runs of src/logging/impl/spsc_queue.cc at concrete inputs, and instances of the theorems.
use femtolog.Prelude.{
  ◌+◌, ◌-◌, ◌^◌, List, [], ◌∷◌, none, some, ◌≡◌, refl, replicate, length-replicate, arith,
}
use mathlib.Core.List.{flatten}
use femtolog.Ring.{position, to_end, copy_in, copy_out, copy_in_all, copy_out_all}
use femtolog.Ring.Window.{window}
use femtolog.Memory.{Allocator}
use femtolog.Spsc.{
  ok, underflow, overflow, size_is_zero, Spsc, enqueue_bytes, dequeue_bytes, peek_bytes,
  enqueue_bulk, dequeue_bulk, reserve,
}
use femtolog.Spsc.Capacity.{IsNextPower, next_power_of_2, next_power_of_2_lem}
use femtolog.Spsc.Invariant.{Represents}
use femtolog.Spsc.Bulk.{enqueue_bulk-enqueue_bytes}
use femtolog.Spsc.Reserve.{Reserved, reserve_lem}
use femtolog.Spsc.Runs.{
  Op, enqueue, dequeue, peek, enqueue_pieces, dequeue_pieces, run, fifo_run, run_refines,
}
use femtolog.Spsc.Interleaved.{
  System, ready, resting, Steps, here, then, grant, look_at_head, admit, copy, store, advance_tail,
  advance_head,
}
use femtolog.Spsc.Interleaved.Delivery.{Inv, start, start-Inv}
use femtolog.Spsc.Interleaved.Delivery.Interleaving.{interleaved_delivery}

-- The capacity is a power of two, and the shift that rounds up stays below the width of the word.
capacities :
    (next_power_of_2 0 ≡ some 2)
    × (next_power_of_2 5 ≡ some 8)
    × (next_power_of_2 8 ≡ some 8)
    × (next_power_of_2 (2 ^ 63) ≡ some (2 ^ 63))
    × (next_power_of_2 (2 ^ 63 + 1) ≡ none)
unfolding next_power_of_2
capacities = (refl, refl, refl, refl, refl)

-- Four bytes of ring whose indices have just gone round `2 ^ 64`: 7, 8 and 9, from position 2 on.
abbrev pub wrapped : Spsc
wrapped = record {
  buffer = some (9 ∷ 0 ∷ 7 ∷ 8 ∷ replicate 64 0);
  capacity = 4;
  mask = 3;
  tail_idx = 1;
  tail_cached = 1;
  head_cached_snapshot = 2 ^ 64 - 3;
  head_idx = 2 ^ 64 - 2;
  head_cached = 2 ^ 64 - 2;
  tail_cached_snapshot = 0;
  allocation_size = 68;
}

pub wrapped-Represents : Represents 4 wrapped (7 ∷ 8 ∷ 9 ∷ [])
unfolding window
wrapped-Represents = record {
  mem = 9 ∷ 0 ∷ 7 ∷ 8 ∷ replicate 64 0;
  exponent = 2;
  positive = omega arith;
  small = omega arith;
  power = refl;
  allocated = refl;
  capacity = refl;
  mask = refl;
  storage = refl;
  slack = refl;
  head_word = omega arith;
  tail_word = omega arith;
  head_snapshot_word = omega arith;
  tail_snapshot_word = omega arith;
  used = omega arith;
  head_seen = omega arith;
  head_lags = omega arith;
  tail_lags = omega arith;
  tail_mirror = refl;
  head_mirror = refl;
  holds = refl;
}

abbrev pub session : List Op
session =
    enqueue (1 ∷ [])
    ∷ enqueue (2 ∷ [])
    ∷ dequeue 2
    ∷ enqueue_pieces ((3 ∷ []) ∷ (4 ∷ []) ∷ [])
    ∷ dequeue_pieces (3 ∷ 1 ∷ [])
    ∷ peek 1
    ∷ dequeue 0
    ∷ []

run-wrapped :
    run wrapped session
    ≡ some (
        (ok, [])
        ∷ (overflow, [])
        ∷ (ok, (7 ∷ 8 ∷ []) ∷ [])
        ∷ (ok, [])
        ∷ (ok, (9 ∷ 1 ∷ 3 ∷ []) ∷ (4 ∷ []) ∷ [])
        ∷ (underflow, [] ∷ [])
        ∷ (size_is_zero, [] ∷ [])
        ∷ [])
unfolding run enqueue_bytes dequeue_bytes peek_bytes enqueue_bulk dequeue_bulk copy_in copy_out
    copy_in_all copy_out_all position to_end
run-wrapped = refl

run_refines_example : run wrapped session ≡ some (fifo_run 4 (7 ∷ 8 ∷ 9 ∷ []) session)
unfolding flatten
run_refines_example = run_refines session wrapped-Represents (omega arith)

next_power_of_2_example : IsNextPower 5 (next_power_of_2 5)
next_power_of_2_example = next_power_of_2_lem 5 (omega arith)

enqueue_bulk_example :
    enqueue_bulk wrapped ((1 ∷ []) ∷ (2 ∷ []) ∷ [])
    ≡ enqueue_bytes wrapped (flatten ((1 ∷ []) ∷ (2 ∷ []) ∷ []))
unfolding flatten
enqueue_bulk_example =
    enqueue_bulk-enqueue_bytes wrapped-Represents ((1 ∷ []) ∷ (2 ∷ []) ∷ []) (omega arith)

-- An allocator that always succeeds, with zeroed blocks.
abbrev pub zeroed : Allocator
zeroed = record {
  posix_memalign = λ alignment size. (0, replicate size 0);
  block_size = λ alignment size _. length-replicate size 0;
}

reserve_example : Reserved zeroed 5 (reserve zeroed 5)
reserve_example = reserve_lem zeroed 5 (omega arith)

-- The two threads on the wrapped ring: the consumer takes 7 and 8 while the producer, which has to look at
-- the head first, puts 1 behind the 9.
abbrev after : System
after = record {
  queue = record {
    buffer = some (9 ∷ 1 ∷ 7 ∷ 8 ∷ replicate 64 0);
    capacity = 4;
    mask = 3;
    tail_idx = 2;
    tail_cached = 2;
    head_cached_snapshot = 2 ^ 64 - 2;
    head_idx = 0;
    head_cached = 0;
    tail_cached_snapshot = 0;
    allocation_size = 68;
  };
  producer = ready;
  consumer = resting;
  sent = 7 ∷ 8 ∷ 9 ∷ 1 ∷ [];
  received = 7 ∷ 8 ∷ [];
}

both_threads : Steps (start wrapped (7 ∷ 8 ∷ 9 ∷ [])) after
unfolding copy_in copy_out position to_end
both_threads =
    then
      (then
        (then
          (then
            (then (then (then here (grant 2 refl (omega arith) refl)) (look_at_head refl))
              (admit (1 ∷ []) refl (omega arith) refl))
            (copy 2 (9 ∷ 0 ∷ 7 ∷ 8 ∷ replicate 64 0) (7 ∷ 8 ∷ []) refl refl refl))
          (store (1 ∷ []) (9 ∷ 0 ∷ 7 ∷ 8 ∷ replicate 64 0) (9 ∷ 1 ∷ 7 ∷ 8 ∷ replicate 64 0) refl
            refl refl))
        (advance_tail (1 ∷ []) refl))
      (advance_head (7 ∷ 8 ∷ []) refl)

interleaved_delivery_example : Inv 4 after
interleaved_delivery_example = interleaved_delivery (start-Inv wrapped-Represents) both_threads
