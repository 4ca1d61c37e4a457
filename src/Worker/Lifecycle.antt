-- ===== src/Worker/Lifecycle.antt =====
-- The life of the worker in src/logging/impl/backend_worker.cc: `init`, `start`, `stop`, `flush`, the
-- sinks, and the thread's `run_loop` turn by turn. `none` is a fault, or `std::terminate` for a
-- thread started over a joinable one.
pub mod Laws
pub mod Restart
use femtolog.Prelude.{
  ℕ, zero, suc, ◌+◌, List, [], ◌∷◌, ◌++◌, Option, none, some, ◌>>=◌, Bool, true, false, ltb, leb,
  not, if◌then◌else◌,
}
use femtolog.Word.{u64}
use femtolog.Spsc.{Spsc}
use femtolog.Worker.{
  Worker, WorkerStatus, uninitialized, idling, running, unknown, Thread, absent, looping, exited,
  Delivery, Environment, read_and_process_one, flush_impl,
}
use femtolog.Worker.Polling.{apply_polling_strategy}

abbrev pub is_running : WorkerStatus → Bool
is_running running = true
is_running _ = false

-- The constructor.
abbrev pub new : Worker
new = record {
  status = uninitialized;
  thread = absent;
  sinks = [];
  dequeue_buffer_size = 0;
  format_capacity = 0;
  cpu_affinity = 5;
  shutdown_required = false;
  flush_requested_seq = 0;
  flush_completed_seq = 0;
  idle_iterations = 0;
  clock_reads = 0;
}

-- `register_sink` and `clear_sinks`.
abbrev pub register_sink : Worker → Worker
register_sink w = record w { sinks = w.sinks ++ ([] ∷ []) }

abbrev pub clear_sinks : Worker → Worker
clear_sinks w = record w { sinks = [] }

spawn : Thread → Worker → Option Worker
spawn absent w = some (record w { thread = looping; status = running })
spawn _ w = none

unfoldable pub start : Worker → Option Worker
unfolding spawn
start w = spawn w.thread w

-- The first half of `flush`, up to the wait, and the test that ends the wait.
unfoldable pub flush_request : Worker → Worker
flush_request w =
    if is_running w.status
    then record w { flush_requested_seq = u64 (w.flush_requested_seq + 1) }
    else w

-- `flush` returns once the sequence number that it took is completed.
unfoldable pub flush_returns : Worker → ℕ → Bool
flush_returns w seq = not (ltb w.flush_completed_seq seq)

-- `init`, with what it takes from the options.
unfoldable pub init : Environment → Worker → ℕ → ℕ → ℕ → Worker
init env w dequeue_buffer_size format_buffer_size affinity = record w {
  status = idling;
  dequeue_buffer_size = dequeue_buffer_size;
  format_capacity = env.reserved_capacity format_buffer_size;
  cpu_affinity = affinity;
}

module _ (env : Environment) (fuel : ℕ) where
  -- The end of `run_loop`, behind the loop.
  unfoldable pub exit_loop : Worker → Spsc → Option (Worker × Spsc)
  exit_loop w q = flush_impl env fuel w q >>= λ (w', q').
      some (record w' { flush_completed_seq = w'.flush_requested_seq; thread = exited }, q')

  -- The part of a turn that answers a pending flush.
  serve_flush : Worker → Spsc → Option (Worker × Spsc)
  serve_flush w q =
      if ltb w.flush_completed_seq w.flush_requested_seq
      then (flush_impl env fuel w q >>= λ (w', q').
          some (record w' { flush_completed_seq = w.flush_requested_seq }, q'))
      else some (w, q)

  loop_body : Worker → Spsc → Option (Worker × Spsc)
  unfolding serve_flush
  loop_body w q = serve_flush w q >>= λ (w', q').
      read_and_process_one env w' q' >>= λ (dequeued, w'', q'').
      some ((apply_polling_strategy w'' dequeued).0, q'')

  turn_of : Thread → Worker → Spsc → Option (Worker × Spsc)
  unfolding loop_body
  turn_of looping w q = if w.shutdown_required then exit_loop w q else loop_body w q
  turn_of _ w q = some (w, q)

  -- One turn of the worker thread: an iteration of `run_loop`, or its end. A thread that is not in
  -- `run_loop` does nothing.
  unfoldable pub turn : Worker → Spsc → Option (Worker × Spsc)
  unfolding turn_of
  turn w q = turn_of w.thread w q

  -- What is left to run in the thread when `join` waits for it; it may have made any number of
  -- turns before it sees `shutdown_required_`.
  join : Thread → Worker → Spsc → Option (Worker × Spsc)
  join looping w q = exit_loop w q >>= λ (w', q'). some (record w' { thread = absent }, q')
  join exited w q = some (record w { thread = absent }, q)
  join absent w q = some (w, q)

  unfoldable pub stop : Worker → Spsc → Option (Worker × Spsc)
  unfolding join
  stop w q =
      if is_running w.status
      then (join w.thread (record w { shutdown_required = true }) q >>= λ (w', q').
          some (record w' { status = idling }, q'))
      else some (w, q)
