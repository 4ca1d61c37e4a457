-- ===== src/Logger.antt =====
-- The frontend: include/femtolog/logging/impl/internal_logger.h, src/logging/impl/internal_logger.cc
-- and `level(const char*)` of include/femtolog/logger.h. `none` is a fault.
pub mod Init
pub mod Tests
pub mod Enqueue
pub mod View
pub mod Log
pub mod Refine
pub mod Session
pub mod Fatal
use femtolog.Prelude.{
  ℕ, ◌+◌, ◌*◌, List, Option, none, some, ◌>>=◌, Bool, true, false, ◌&&◌, ◌||◌, length, take, ltb,
  leb, ◌==◌, if◌then◌else◌,
}
use femtolog.Word.{add_size}
use femtolog.Memory.{Allocator}
use femtolog.Spsc.{Spsc, Status, ok, enqueue_bytes, reserve}
use femtolog.Level.{LogLevel, above, log_level_from_string}
use femtolog.Entry.{LogEntry, entry_size, header_at, create, total_size}
use femtolog.Worker.{Worker, WorkerStatus, uninitialized, Environment, literal_id, max_payload_size}
use femtolog.Worker.Lifecycle

pub record InternalLogger : Type 0 where
  pub level : LogLevel
  pub thread_id : ℕ
  pub enqueued_count : ℕ
  pub dropped_count : ℕ
  pub queue : Spsc
  pub entry_buffer : List ℕ
  pub worker : Worker
  pub terminate_on_fatal : Bool

-- What the arguments of a call of `log` come to: a literal, or the identifier of the format and what
-- the serializer wrote.
pub data Message : Type 0 where
  literal : List ℕ → Message
  serialized : ℕ → List ℕ → Message

-- A call returns, or ends the process by `std::terminate`.
pub data Outcome : Type 0 where
  returned : InternalLogger → Outcome
  terminated : InternalLogger → Outcome

abbrev pub is_fatal : LogLevel → Bool
is_fatal LogLevel.fatal = true
is_fatal _ = false

-- The parts of the options that the logger reads.
pub record Options : Type 0 where
  pub spsc_queue_size : ℕ
  pub dequeue_buffer_size : ℕ
  pub format_buffer_size : ℕ
  pub backend_worker_cpu_affinity : ℕ
  pub terminate_on_fatal : Bool

pub init_worker : Environment → Options → Worker → WorkerStatus → Worker
init_worker env o w uninitialized =
    Lifecycle.init env w o.dequeue_buffer_size o.format_buffer_size o.backend_worker_cpu_affinity
init_worker env o w _ = w

-- `InternalLogger::init`
unfoldable pub init : Allocator → Environment → Options → InternalLogger → Option InternalLogger
unfolding init_worker
init a env o l = reserve a o.spsc_queue_size >>= λ q. some (record l {
  queue = q;
  worker = init_worker env o l.worker l.worker.status;
  terminate_on_fatal = o.terminate_on_fatal;
})

unfoldable pub reset_count : InternalLogger → InternalLogger
reset_count l = record l { enqueued_count = 0; dropped_count = 0 }

-- `level(const char*)`: an unknown name is ignored.
abbrev pub level_or : LogLevel → LogLevel → LogLevel
level_or old LogLevel.unknown = old
level_or old new = new

unfoldable pub level_of_name : InternalLogger → List ℕ → InternalLogger
level_of_name l name = record l { level = level_or l.level (log_level_from_string name) }

abbrev pub drop_entry : InternalLogger → InternalLogger
drop_entry l = record l { dropped_count = add_size l.dropped_count 1 }

abbrev pub count : Status → InternalLogger → InternalLogger
count ok l = record l { enqueued_count = add_size l.enqueued_count 1 }
count _ l = drop_entry l

module _ (env : Environment) (fuel : ℕ) where
  -- The end of `enqueue_log_entry`.
  pub finish : LogLevel → InternalLogger → Option Outcome
  finish lvl l =
      if is_fatal lvl && l.terminate_on_fatal
      then (Lifecycle.stop env fuel l.worker l.queue >>= λ (w, q).
          some (terminated (record l { worker = w; queue = q })))
      else some (returned l)

  -- `enqueue_log_entry`, for the entry in `entry_buffer_`.
  unfoldable pub enqueue_log_entry : InternalLogger → Option Outcome
  unfolding finish
  enqueue_log_entry l =
      let entry = header_at l.entry_buffer in
      if leb (total_size entry) (length l.entry_buffer)
      then (enqueue_bytes l.queue (take (total_size entry) l.entry_buffer) >>= λ (status, q).
          finish entry.level (count status (record l { queue = q })))
      else none

  unfoldable pub create_and_enqueue : InternalLogger → LogLevel → ℕ → List ℕ → Option Outcome
  create_and_enqueue l lvl format_id payload =
      create l.entry_buffer l.thread_id format_id lvl 0 payload >>= λ buffer.
      enqueue_log_entry (record l { entry_buffer = buffer })

  unfoldable pub log_literal : InternalLogger → LogLevel → List ℕ → Option Outcome
  unfolding create_and_enqueue
  log_literal l lvl message =
      if leb max_payload_size (length message)
      then some (returned (drop_entry l))
      else create_and_enqueue l lvl literal_id message

  unfoldable pub log_serialized : InternalLogger → LogLevel → ℕ → List ℕ → Option Outcome
  unfolding create_and_enqueue
  log_serialized l lvl format_id args =
      if leb max_payload_size (length args) || length args == 0
      then some (returned (drop_entry l))
      else create_and_enqueue l lvl format_id args

  pub log_message : InternalLogger → LogLevel → Message → Option Outcome
  unfolding log_literal log_serialized
  log_message l lvl (literal message) = log_literal l lvl message
  log_message l lvl (serialized format_id args) = log_serialized l lvl format_id args

  -- `InternalLogger::log`
  unfoldable pub log : InternalLogger → LogLevel → Message → Option Outcome
  unfolding log_message
  log l lvl m =
      if above lvl l.level
      then some (returned l)
      else (if Lifecycle.is_running l.worker.status then log_message l lvl m else some (returned l))
