-- ===== src/Worker/Tests.antt =====
-- Runs of src/logging/impl/backend_worker.cc, and instances of the theorems.
use femtolog.Prelude.{ℕ, ◌+◌, ◌++◌, List, [], ◌∷◌, some, ◌≡◌, refl, replicate, arith, true}
use femtolog.Ring.Window.{window}
use femtolog.Entry.{header_bytes, to_bytes}
use femtolog.Entry.Tests.{hello_entry}
use femtolog.Spsc.{Spsc}
use femtolog.Spsc.Invariant.{Represents}
use femtolog.Worker.{Worker, running, idling, looping, absent, Environment, flush_impl}
use femtolog.Worker.Processing.{Frame, IsFrame, frames_bytes, deliver_frames, flush_impl_lem}
use femtolog.Worker.Lifecycle.{new, start, stop, turn, flush_request}
use femtolog.Worker.Lifecycle.Laws.{stopped, stop_drains, Flushes, turn-Flushes}
use femtolog.Worker.Lifecycle.Restart.{Hangs, restart-Hangs}

abbrev pub plain : Environment
plain = record {
  clock = λ n. 1000 + n;
  formatted = λ format_func deserialize_func args. args;
  reserved_capacity = λ n. n;
}

abbrev pub hello : Frame
hello = record { entry = hello_entry; padding = replicate 7 0; payload = 104 ∷ 105 ∷ [] }

pub hello-IsFrame : IsFrame hello
hello-IsFrame = record {
  fields = record {
    payload_len = omega arith;
    format_id = omega arith;
    thread_id = omega arith;
    timestamp_ns = omega arith;
  };
  padded = refl;
  sized = refl;
  limited = omega arith;
}

-- A queue of 64 bytes with the entry `hello` at its start.
abbrev pub hello_bytes : List ℕ
hello_bytes =
    2 ∷ 0 ∷ 255 ∷ 255 ∷ 1 ∷ 0 ∷ 0 ∷ 0 ∷ (replicate 8 0 ++ (4 ∷ (replicate 7 0 ++ (104 ∷ 105 ∷ []))))

abbrev pub hello_queue : Spsc
hello_queue = record {
  buffer = some (hello_bytes ++ replicate 102 0);
  capacity = 64;
  mask = 63;
  tail_idx = 26;
  tail_cached = 26;
  head_cached_snapshot = 0;
  head_idx = 0;
  head_cached = 0;
  tail_cached_snapshot = 0;
  allocation_size = 128;
}

pub hello_queue-Represents : Represents 64 hello_queue (frames_bytes (hello ∷ []))
unfolding window header_bytes to_bytes
hello_queue-Represents = record {
  mem = hello_bytes ++ replicate 102 0;
  exponent = 6;
  positive = omega arith;
  small = omega arith;
  power = refl;
  allocated = refl;
  capacity = refl;
  mask = refl;
  storage = refl;
  slack = refl;
  head_word = omega arith;
  tail_word = omega arith;
  head_snapshot_word = omega arith;
  tail_snapshot_word = omega arith;
  used = omega arith;
  head_seen = omega arith;
  head_lags = omega arith;
  tail_lags = omega arith;
  tail_mirror = refl;
  head_mirror = refl;
  holds = refl;
}

-- An entry with the argument bytes 1 and 2, and the addresses 5 and 6 of its functions.
abbrev numbers : Frame
numbers = record {
  entry = record hello_entry { payload_len = 18; format_id = 3 };
  padding = replicate 7 0;
  payload = 5 ∷ (replicate 7 0 ++ (6 ∷ (replicate 7 0 ++ (1 ∷ 2 ∷ []))));
}

abbrev numbers_bytes : List ℕ
numbers_bytes =
    18
    ∷ 0
    ∷ 3
    ∷ 0
    ∷ 1
    ∷ 0
    ∷ 0
    ∷ 0
    ∷ (replicate 8 0
        ++ (4 ∷ (replicate 7 0 ++ (5 ∷ (replicate 7 0 ++ (6 ∷ (replicate 7 0 ++ (1 ∷ 2 ∷ []))))))))

abbrev numbers_queue : Spsc
numbers_queue = record hello_queue {
  buffer = some (numbers_bytes ++ replicate 86 0);
  tail_idx = 42;
  tail_cached = 42;
}

-- A worker in its loop, with one sink.
abbrev pub looping_worker : Worker
looping_worker = record new {
  status = running;
  thread = looping;
  sinks = [] ∷ [];
  dequeue_buffer_size = 4096;
  format_capacity = 2048;
}

flush_impl_example :
    (q' : Spsc) × (flush_impl plain 2 looping_worker hello_queue
      ≡ some (deliver_frames plain looping_worker (hello ∷ []), q'))
    × Represents 64 q' []
flush_impl_example =
    flush_impl_lem plain (hello ∷ []) 2 looping_worker (omega arith) (hello-IsFrame, tt)
      hello_queue-Represents (omega arith)

stop_drains_example :
    (q' : Spsc) × (stop plain 2 looping_worker hello_queue
      ≡ some (stopped plain looping_worker (hello ∷ []), q'))
    × Represents 64 q' []
stop_drains_example =
    stop_drains plain 2 looping_worker (hello ∷ []) (omega arith) (hello-IsFrame, tt)
      hello_queue-Represents (omega arith) refl refl

turn-Flushes_example : Flushes plain 64 2 (flush_request looping_worker) hello_queue (hello ∷ [])
turn-Flushes_example =
    turn-Flushes plain 2 looping_worker (hello ∷ []) (omega arith) (hello-IsFrame, tt)
      hello_queue-Represents (omega arith) refl refl refl refl (omega arith)

abbrev stopped_worker : Worker
stopped_worker = record looping_worker {
  status = idling;
  thread = absent;
  shutdown_required = true;
}

restart-Hangs_example :
    (w' : Worker) × (w'' : Worker) × (q' : Spsc) × (start stopped_worker ≡ some w')
    × (turn plain 2 w' hello_queue ≡ some (w'', q'))
    × Represents 64 q' []
    × Hangs plain 2 w''
restart-Hangs_example =
    restart-Hangs plain 2 stopped_worker (hello ∷ []) refl refl (omega arith) (omega arith)
      (hello-IsFrame, tt) hello_queue-Represents (omega arith)
