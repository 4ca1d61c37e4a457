-- ===== src/Worker.antt =====
-- The backend worker: include/femtolog/logging/impl/backend_worker.h and
-- src/logging/impl/backend_worker.cc. Its thread runs `run_loop`; a turn of the loop is `turn`, and
-- `stop` joins the thread. `none` is an access outside a buffer.
pub mod Polling
pub mod Processing
pub mod Lifecycle
pub mod Tests
use femtolog.Prelude.{
  ℕ, zero, suc, ◌+◌, ◌-◌, ◌*◌, ◌≤◌, List, [], ◌∷◌, ◌++◌, Option, none, some, ◌>>=◌, Bool, true,
  false, ◌||◌, map, length, min, take, drop, ltb, leb, ◌==◌, if◌then◌else◌,
}
use femtolog.Word.{add_size}
use femtolog.Spsc.{Spsc, Status, ok, peek_bytes, dequeue_bytes}
use femtolog.Entry.{LogEntry, entry_size, of_bytes, header_at, copy_raw_payload}

-- `enum class BackendWorkerStatus`
pub data WorkerStatus : Type 0 where
  uninitialized idling running unknown : WorkerStatus

-- `worker_thread_`: not started or joined, in `run_loop`, or past its end and not yet joined.
pub data Thread : Type 0 where
  absent looping exited : Thread

-- One call of a sink's `on_log`: the entry, the bytes at `content`, and `len`.
pub record Delivery : Type 0 where
  pub entry : LogEntry
  pub content : List ℕ
  pub len : ℕ

-- What the worker uses of the system and of {fmt}: the successive values of `timestamp_ns()`, the
-- text that a format function makes of serialized arguments (by the addresses of the two functions
-- in the header), and the capacity of a `fmt::memory_buffer` after `reserve`.
pub record Environment : Type 0 where
  pub clock : ℕ → ℕ
  pub formatted : ℕ → ℕ → List ℕ → List ℕ
  pub reserved_capacity : ℕ → ℕ

-- A sink is the calls that it has received. `clock_reads` counts the calls of `timestamp_ns()`.
pub record Worker : Type 0 where
  pub status : WorkerStatus
  pub thread : Thread
  pub sinks : List (List Delivery)
  pub dequeue_buffer_size : ℕ
  pub format_capacity : ℕ
  pub cpu_affinity : ℕ
  pub shutdown_required : Bool
  pub flush_requested_seq : ℕ
  pub flush_completed_seq : ℕ
  pub idle_iterations : ℕ
  pub clock_reads : ℕ

-- `kLiteralLogStringId` of include/femtolog/base/string_registry.h and `kMaxPayloadSize` of
-- include/femtolog/logging/impl/internal_logger.h.
abbrev pub literal_id : ℕ
literal_id = 0xffff

abbrev pub max_payload_size : ℕ
max_payload_size = 1024 - entry_size

-- `sizeof(SerializedArgsHeader)`: two function pointers.
abbrev pub args_header_size : ℕ
args_header_size = 16

-- `for (const auto& sink : sinks_) sink->on_log(...)`
abbrev pub deliver : Delivery → Worker → Worker
deliver d w = record w { sinks = map (λ calls. calls ++ (d ∷ [])) w.sinks }

-- `FormatDispatcher::format` of include/femtolog/base/format_util.h: the buffer takes what fits its
-- capacity, and the whole size is returned.
abbrev pub format_into : ℕ → List ℕ → List ℕ × ℕ
format_into capacity text = (take capacity text, length text)

module _ (env : Environment) where
  -- The entry with its timestamp, as the sinks see it.
  abbrev pub stamped : Worker → List ℕ → LogEntry
  stamped w bytes = record (header_at bytes) { timestamp_ns = env.clock w.clock_reads }

  -- The branch for literal messages, with `buf[n] = 0` inside `buf` or a fault.
  process_literal : Worker → LogEntry → List ℕ → Option Worker
  process_literal w entry payload =
      let (message, n) = copy_raw_payload entry payload max_payload_size in
      if ltb n max_payload_size
      then some (deliver (record { entry = entry; content = message; len = n }) w)
      else none

  -- The branch for serialized arguments. A null function pointer drops the entry.
  unfoldable pub process_serialized : Worker → LogEntry → List ℕ → Worker
  process_serialized w entry payload =
      let format_func = of_bytes (take 8 payload) in
      let deserialize_func = of_bytes (take 8 (drop 8 payload)) in
      let text = env.formatted format_func deserialize_func (drop args_header_size payload) in
      if deserialize_func == 0 || format_func == 0
      then w
      else deliver
          (record {
            entry = entry;
            content = (format_into w.format_capacity text).0;
            len = (format_into w.format_capacity text).1;
          })
          w

  -- `process_log_entry`, on the bytes in `dequeue_buffer_`.
  unfoldable pub process_log_entry : Worker → List ℕ → Option Worker
  unfolding process_literal process_serialized
  process_log_entry w bytes =
      let entry = stamped w bytes in
      let w' = record w { clock_reads = w.clock_reads + 1 } in
      if entry.format_id == literal_id
      then process_literal w' entry (drop entry_size bytes)
      else some (process_serialized w' entry (drop entry_size bytes))

  -- The end of `read_and_process_one`: what `dequeue_bytes` writes must fit `dequeue_buffer_`.
  process_dequeued : Worker → Status × List ℕ × Spsc → Option (Bool × Worker × Spsc)
  unfolding process_log_entry
  process_dequeued w (ok, bytes, q) =
      if leb (length bytes) w.dequeue_buffer_size
      then (process_log_entry w bytes >>= λ w'. some (true, w', q))
      else none
  process_dequeued w (_, bytes, q) = some (false, w, q)

  read_after_peek : Worker → Spsc → Status × List ℕ → Option (Bool × Worker × Spsc)
  unfolding process_dequeued
  read_after_peek w q (ok, length_bytes) =
      dequeue_bytes q (add_size entry_size (of_bytes length_bytes)) >>= λ r. process_dequeued w r
  read_after_peek w q (_, length_bytes) = some (false, w, q)

  unfoldable pub read_and_process_one : Worker → Spsc → Option (Bool × Worker × Spsc)
  unfolding read_after_peek
  read_and_process_one w q = peek_bytes q 2 >>= λ r. read_after_peek w q r

  -- `flush_impl`, for at most `fuel` entries.
  unfoldable pub flush_impl : ℕ → Worker → Spsc → Option (Worker × Spsc)
  unfolding read_and_process_one
  flush_impl zero w q = none
  flush_impl (suc fuel) w q = read_and_process_one w q >>= λ (more, w', q'). elim more [
    | true ↦ flush_impl fuel w' q'
    | false ↦ some (w', q')
  ]
