-- ===== src/Logger/Tests.antt =====
-- Runs of include/femtolog/logging/impl/internal_logger.h, and instances of the theorems.
use femtolog.Prelude.{List, [], ◌∷◌, some, ◌≡◌, refl, replicate, arith, Bool, true, false}
use femtolog.Spsc.{Spsc, new}
use femtolog.Spsc.Invariant.{Represents}
use femtolog.Spsc.Tests.{zeroed}
use femtolog.Level.{LogLevel, codes}
use femtolog.Entry.{header_bytes}
use femtolog.Worker.Lifecycle
use femtolog.Worker.Lifecycle.Laws.{stopped}
use femtolog.Worker.Tests.{
  plain, hello, hello-IsFrame, hello_queue, hello_queue-Represents, looping_worker,
}
use femtolog.Logger.{InternalLogger, Options, Message, literal, serialized, returned, init, log}
use femtolog.Logger.View.{View, Stands, log_view}
use femtolog.Logger.Refine.{Returns, log_refines}
use femtolog.Logger.Session.{log_all, log_all_view, session_lem}
use femtolog.Logger.Fatal.{Terminates, fatal-Terminates}
use femtolog.Logger.Init.{Initialized, init_lem}

-- A logger with one entry in a queue of 64 bytes, which ends the process on a fatal entry or not.
abbrev logger_of : Bool → InternalLogger
logger_of strict = record {
  level = LogLevel.info;
  thread_id = 1;
  enqueued_count = 1;
  dropped_count = 0;
  queue = hello_queue;
  entry_buffer = replicate 1024 0;
  worker = looping_worker;
  terminate_on_fatal = strict;
}

abbrev view_of : Bool → View
view_of strict = record {
  frames = hello ∷ [];
  enqueued = 1;
  dropped = 0;
  limit = LogLevel.info;
  thread_id = 1;
  padding = replicate 7 0;
  worker = looping_worker;
  terminate_on_fatal = strict;
}

logger_of-Stands : (strict : Bool) → Stands 64 (logger_of strict) (view_of strict)
logger_of-Stands strict = record {
  queue = hello_queue-Represents;
  frames = (hello-IsFrame, tt);
  enqueued = refl;
  dropped = refl;
  limit = refl;
  thread = refl;
  small = omega arith;
  buffer = refl;
  padding = refl;
  worker = refl;
  fatal = refl;
}

abbrev logger : InternalLogger
logger = logger_of false

abbrev view : View
view = view_of false

logger-Stands : Stands 64 logger view
logger-Stands = logger_of-Stands false

abbrev strict : InternalLogger
strict = logger_of true

abbrev strict_view : View
strict_view = view_of true

strict-Stands : Stands 64 strict strict_view
strict-Stands = logger_of-Stands true

log_refines_example :
    Returns 64
      (log plain 2 logger LogLevel.warn (literal (codes "disk full")))
      (log_view 64 LogLevel.warn (literal (codes "disk full")) view)
log_refines_example =
    log_refines plain 2 logger-Stands LogLevel.warn refl (literal (codes "disk full")) tt

-- One entry that fits, one below the level, and one for which there is no room.
abbrev calls : List (LogLevel × Message)
calls =
    (LogLevel.error, literal (codes "disk"))
    ∷ (LogLevel.debug, literal (codes "sector 7"))
    ∷ (LogLevel.warn, serialized 12 (replicate 30 1))
    ∷ []

counted : ((log_all_view 64 calls view).enqueued ≡ 2) × ((log_all_view 64 calls view).dropped ≡ 1)
unfolding log_view header_bytes
counted = (refl, refl)

session_example :
    (l' : InternalLogger) × (q' : Spsc) × (log_all plain 5 calls logger ≡ some (returned l'))
    × Stands 64 l' (log_all_view 64 calls view)
    × (Lifecycle.stop plain 5 l'.worker l'.queue
        ≡ some (stopped plain looping_worker (log_all_view 64 calls view).frames, q'))
    × Represents 64 q' []
unfolding log_view header_bytes
session_example =
    session_lem plain 5 calls (tt, (tt, (omega arith, tt))) logger-Stands refl refl refl
      (omega arith) (omega arith)

fatal_example :
    Terminates plain 3 strict-Stands refl refl refl refl
      (omega arith)
      (log plain 3 strict LogLevel.fatal (literal (codes "broken")))
      (log_view 64 LogLevel.fatal (literal (codes "broken")) strict_view)
unfolding log_view header_bytes
fatal_example =
    fatal-Terminates plain 3 strict-Stands refl refl refl refl (omega arith)
      (literal (codes "broken")) tt (omega arith) (omega arith)

abbrev options : Options
options = record {
  spsc_queue_size = 8192;
  dequeue_buffer_size = 4096;
  format_buffer_size = 2048;
  backend_worker_cpu_affinity = 5;
  terminate_on_fatal = true;
}

abbrev fresh : InternalLogger
fresh = record logger { enqueued_count = 0; queue = new; worker = Lifecycle.new }

init_example : Initialized zeroed plain options fresh (init zeroed plain options fresh)
init_example =
    init_lem zeroed plain options fresh
      (record { enqueued = refl; dropped = refl; thread = omega arith; buffer = refl })
      (omega arith)
