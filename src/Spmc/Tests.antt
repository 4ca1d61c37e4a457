-- ===== src/Spmc/Tests.antt =====
-- Runs of src/logging/impl/spmc_queue.cc at concrete inputs, and instances of the theorems.
use femtolog.Prelude.{ℕ, ◌<◌, List, [], ◌∷◌, some, ◌≡◌, refl, replicate, arith}
use mathlib.Core.List.{flatten}
use femtolog.Ring.{copy_in, copy_out, position, to_end}
use femtolog.Ring.Window.{window}
use femtolog.Spsc.{distance}
use femtolog.Spsc.Runs.{fifo_run}
use femtolog.Spsc.Tests.{wrapped, wrapped-Represents, session}
use femtolog.Spmc.{Spmc}
use femtolog.Spmc.Alone.{from_spsc, run, alone_refines}
use femtolog.Spmc.Start.{start}
use femtolog.Spmc.Concurrent.{
  ready, System, admit, store, advance_tail, take_ticket, check, copy, advance_commit, Steps, here,
  then, ticketed, checked, copied,
}
use femtolog.Spmc.Concurrent.Delivery.{Inv, Within}
use femtolog.Spmc.Concurrent.Delivery.Interleaving.{delivery}
use femtolog.Spmc.Concurrent.Race.{Any, overtaken, overtake, call_at}

alone_refines_example : run (from_spsc wrapped) session ≡ some (fifo_run 4 (7 ∷ 8 ∷ 9 ∷ []) session)
unfolding flatten
alone_refines_example = alone_refines session wrapped-Represents (omega arith)

-- A ring of four bytes that nothing was written to.
abbrev empty_queue : Spmc
empty_queue = record {
  buffer = some (replicate 68 0);
  capacity = 4;
  mask = 3;
  tail_idx = 0;
  head_idx = 0;
  commit_idx = 0;
  allocation_size = 68;
}

empty_queue-Inv : Inv 4 (start empty_queue)
unfolding window
empty_queue-Inv = record {
  mem = replicate 68 0;
  bytes = [];
  allocated = refl;
  ring = record {
    exponent = 2;
    small = omega arith;
    power = refl;
    capacity = refl;
    mask = refl;
    storage = omega arith;
    tail_word = omega arith;
    commit_word = omega arith;
    used = omega arith;
    holds = refl;
  };
  pending = tt;
  head_word = omega arith;
  tiles = refl;
  whole = refl;
}

-- Two bytes are sent; two consumers take a ticket for one each, and the second copies first.
abbrev filled : List ℕ
filled = 7 ∷ 8 ∷ replicate 66 0

abbrev after : System
after = record {
  queue = record {
    buffer = some filled;
    capacity = 4;
    mask = 3;
    tail_idx = 2;
    head_idx = 2;
    commit_idx = 1;
    allocation_size = 68;
  };
  producer = ready;
  calls = call_at 1 1 (copied (8 ∷ [])) ∷ [];
  sent = 7 ∷ 8 ∷ [];
  returned = 7 ∷ [];
}

two_consumers : Steps Within (start empty_queue) after
unfolding copy_in copy_out to_end position
two_consumers =
    then
      (then
        (then
          (then
            (then
              (then
                (then
                  (then
                    (then (then here (admit (7 ∷ 8 ∷ []) refl (omega arith) refl))
                      (store (7 ∷ 8 ∷ []) (replicate 68 0) filled refl refl refl))
                    (advance_tail (7 ∷ 8 ∷ []) refl))
                  (take_ticket 1 (omega arith) (omega arith)))
                (take_ticket 1 (omega arith) (omega arith)))
              (check [] (call_at 1 1 ticketed ∷ []) 0 1 refl refl))
            (check (call_at 0 1 checked ∷ []) [] 1 1 refl refl))
          (copy (call_at 0 1 checked ∷ []) [] 1 1 filled (8 ∷ []) refl refl refl))
        (copy [] (call_at 1 1 (copied (8 ∷ [])) ∷ []) 0 1 filled (7 ∷ []) refl refl refl))
      (advance_commit [] (call_at 1 1 (copied (8 ∷ [])) ∷ []) 0 1 (7 ∷ []) refl refl)

delivery_example : Inv 4 after
delivery_example = delivery empty_queue-Inv two_consumers

-- An empty queue lets a call for one byte through while another, for two, is refused.
overtake_example :
    Steps Any (start empty_queue) (overtaken (start empty_queue) 2 1)
    × (0 < distance 2 0)
    × ((overtaken (start empty_queue) 2 1).queue.head_idx ≡ 1)
overtake_example =
    overtake (start empty_queue) 2 1 (omega arith) (omega arith) (omega arith) (omega arith)
      (omega arith)
