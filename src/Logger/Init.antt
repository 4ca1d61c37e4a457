-- ===== src/Logger/Init.antt =====
-- `InternalLogger::init`, and the level by its name.
use femtolog.Prelude.{
  ℕ, ◌≤◌, ◌<◌, ◌^◌, List, [], ◌++◌, Option, some, ◌≡◌, ◌≢◌, ◌⊎◌, inl, inr, refl, sym, arith, ap,
  ◌∙◌, length,
}
use femtolog.Memory.{Allocator}
use femtolog.Spsc.{new}
use femtolog.Spsc.Capacity.{next_power_of_2}
use femtolog.Spsc.Reserve.{Refuses, reserve_lem}
use femtolog.Level.{LogLevel, log_level_to_lower_str}
use femtolog.Level.Names.{from_string-to_lower_str}
use femtolog.Worker.{Worker, WorkerStatus, uninitialized, idling, running, Environment}
use femtolog.Worker.Lifecycle
use femtolog.Logger.{InternalLogger, Options, init, init_worker, level_or, level_of_name}
use femtolog.Logger.Enqueue.{padding_of, buffer_size}
use femtolog.Logger.View.{View, Stands}

-- A logger before `init`: nothing counted, and `entry_buffer_` of any content.
pub record IsFresh (l : InternalLogger) : Type 0 where
  pub enqueued : l.enqueued_count ≡ 0
  pub dropped : l.dropped_count ≡ 0
  pub thread : l.thread_id < 2 ^ 32
  pub buffer : length l.entry_buffer ≡ buffer_size

-- The view of a logger without entries.
abbrev pub empty_view : Environment → Options → InternalLogger → View
empty_view env o l = record {
  frames = [];
  enqueued = 0;
  dropped = 0;
  limit = l.level;
  thread_id = l.thread_id;
  padding = padding_of l.entry_buffer;
  worker = init_worker env o l.worker l.worker.status;
  terminate_on_fatal = o.terminate_on_fatal;
}

-- The worker before and after `init`: one that was not initialized takes the options and waits for
-- `start`, and another stays as it is.
abbrev pub Configured : Environment → Options → Worker → Worker → Type 0
Configured env o w w' =
    ((w.status ≡ uninitialized)
      × (w' ≡ record w {
        status = idling;
        dequeue_buffer_size = o.dequeue_buffer_size;
        format_capacity = env.reserved_capacity o.format_buffer_size;
        cpu_affinity = o.backend_worker_cpu_affinity;
      }))
    ⊎ ((w.status ≢ uninitialized) × (w' ≡ w))

init_worker-Configured :
    (env : Environment) (o : Options) (w : Worker) (s : WorkerStatus)
    → s ≡ w.status
    → Configured env o w (init_worker env o w s)
unfolding init_worker Lifecycle.init
init_worker-Configured env o w uninitialized e = inl (sym e, refl)
init_worker-Configured env o w idling e = inr (λ h. ground (arith, e, h), refl)
init_worker-Configured env o w running e = inr (λ h. ground (arith, e, h), refl)
init_worker-Configured env o w WorkerStatus.unknown e = inr (λ h. ground (arith, e, h), refl)

-- A logger that `init` leaves: the queue is null exactly if the allocator refuses the block, whose
-- size is that of the least power of two, from 2 on, that holds the bytes asked for; otherwise the
-- queue is empty. In both cases the fatal behaviour is that of the options.
abbrev pub Initialized :
    Allocator → Environment → Options → InternalLogger → Option InternalLogger → Type 0
Initialized a env o l result =
    (cap : ℕ) × (l' : InternalLogger) × (result ≡ some l')
    × (next_power_of_2 o.spsc_queue_size ≡ some cap)
    × (o.spsc_queue_size ≤ cap)
    × Configured env o l.worker l'.worker
    × (l'.terminate_on_fatal ≡ o.terminate_on_fatal)
    × ((Refuses a cap × (l'.queue ≡ new))
        ⊎ ((¬ (Refuses a cap)) × Stands cap l' (empty_view env o l)))

-- `init` of a fresh logger returns, for a queue of up to `2 ^ 63` bytes. If the allocator refuses the
-- block of the least power of two that holds the bytes asked for, the queue is null; if it gives the
-- block, the queue has that capacity and no entry in it. In both cases the fatal behaviour is the one
-- that the options ask for, and the worker takes its sizes and its core from the options and is idle, if
-- it was not initialized before; otherwise it stays as it is.
pub init_lem :
    (a : Allocator) (env : Environment) (o : Options) (l : InternalLogger)
    → IsFresh l
    → o.spsc_queue_size ≤ 2 ^ 63
    → Initialized a env o l (init a env o l)
unfolding init
init_lem a env o l fresh small =
    let (cap, next, holds, outcome) = reserve_lem a o.spsc_queue_size small in
    let configured = init_worker-Configured env o l.worker l.worker.status refl in
    elim outcome [
      | inl (failed, result) ↦
          rw result (cap, _, refl, next, holds, configured, refl, inl (failed, refl))
      | inr (given, q, result, r) ↦ rw result (
        cap,
        _,
        refl,
        next,
        holds,
        configured,
        refl,
        inr (
          given,
          record {
            queue = r;
            frames = tt;
            enqueued = fresh.enqueued;
            dropped = fresh.dropped;
            limit = refl;
            thread = refl;
            small = fresh.thread;
            buffer = fresh.buffer;
            padding = refl;
            worker = refl;
            fatal = refl;
          },
        ),
      )
    ]

-- `level(const char*)` with the lower-case name of a level sets that level, whatever stands behind
-- the name, and the name of the unknown level leaves the logger as it is.
pub level_of_name_lem :
    (l : InternalLogger) (lvl : LogLevel) (rest : List ℕ)
    → lvl ≢ LogLevel.unknown
    → (level_of_name l (log_level_to_lower_str lvl ++ rest) ≡ record l { level = lvl })
      × (level_of_name l (log_level_to_lower_str LogLevel.unknown ++ rest) ≡ l)
unfolding level_of_name
level_of_name_lem l lvl rest known = (
  ap (λ new. record l { level = level_or l.level new }) (from_string-to_lower_str lvl rest)
      ∙ ap (λ new. record l { level = new }) (level_or_known lvl known),
  ap (λ new. record l { level = level_or l.level new })
      (from_string-to_lower_str LogLevel.unknown rest),
)
  where
    level_or_known : (lvl : LogLevel) → lvl ≢ LogLevel.unknown → level_or l.level lvl ≡ lvl
    level_or_known LogLevel.raw known = refl
    level_or_known LogLevel.fatal known = refl
    level_or_known LogLevel.error known = refl
    level_or_known LogLevel.warn known = refl
    level_or_known LogLevel.info known = refl
    level_or_known LogLevel.debug known = refl
    level_or_known LogLevel.trace known = refl
    level_or_known LogLevel.unknown known = absurd (known refl)
