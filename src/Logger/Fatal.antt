-- ===== src/Logger/Fatal.antt =====
-- The end of the process by a fatal entry.
use femtolog.Prelude.{
  ℕ, ◌≤◌, ◌<◌, ◌^◌, List, [], Option, some, ◌>>=◌, true, false, ◌≡◌, refl, ap, ◌∙◌, length, leb,
  ◌==◌, if◌then◌else◌, arith, ◌||◌,
}
use femtolog.Spsc.{Spsc}
use femtolog.Spsc.Invariant.{Represents}
use femtolog.Level.{LogLevel, above}
use femtolog.Worker.{Worker, running, looping, Environment, literal_id, max_payload_size}
use femtolog.Worker.Lifecycle.{stop, is_running}
use femtolog.Worker.Lifecycle.Laws.{stopped, stop_drains}
use femtolog.Logger.{
  InternalLogger, Message, literal, serialized, Outcome, returned, terminated, finish,
  create_and_enqueue, log_literal, log_serialized, log_message, log,
}
use femtolog.Logger.View.{View, Stands, submit, accept, log_view, submit_keeps}
use femtolog.Logger.Log.{submit_lem}
use femtolog.Logger.Refine.{IsWord, log_settled}

-- Neither too long nor, for serialized arguments, empty.
abbrev pub IsShort : Message → Type 0
IsShort (literal message) = length message < max_payload_size
IsShort (serialized format_id args) = (length args < max_payload_size) × (0 < length args)

module _ (env : Environment) (fuel : ℕ) {cap : ℕ} {l : InternalLogger} {v : View}
    (s : Stands cap l v) (passes : above LogLevel.fatal v.limit ≡ false)
    (ends : v.terminate_on_fatal ≡ true) (run : v.worker.status ≡ running)
    (loop : v.worker.thread ≡ looping) (room : 1023 ≤ v.worker.dequeue_buffer_size) where
  -- The process ends with the worker stopped behind all entries of the view `v'`.
  pub Terminates : Option Outcome → View → Type 0
  Terminates result v' =
      (l' : InternalLogger) × (result ≡ some (terminated l'))
      × (l'.worker ≡ stopped env v.worker v'.frames)
      × Represents cap l'.queue []

  finish_fatal :
      (l' : InternalLogger) {w : Worker} {q : Spsc}
      → l'.terminate_on_fatal ≡ true
      → stop env fuel l'.worker l'.queue ≡ some (w, q)
      → finish env fuel LogLevel.fatal l' ≡ some (terminated (record l' { worker = w; queue = q }))
  unfolding finish
  finish_fatal l' set stops =
      ap
        (λ b.
          if b
          then (stop env fuel l'.worker l'.queue >>= λ (w, q).
              some (terminated (record l' { worker = w; queue = q })))
          else some (returned l'))
        set
      ∙ ap (λ r. r >>= λ (w, q). some (terminated (record l' { worker = w; queue = q }))) stops

  submit-Terminates :
      (format_id : ℕ) (payload : List ℕ)
      → length payload < max_payload_size
      → format_id < 2 ^ 16
      → length (submit cap LogLevel.fatal format_id payload v).frames < fuel
      → Terminates
          (create_and_enqueue env fuel l LogLevel.fatal format_id payload)
          (submit cap LogLevel.fatal format_id payload v)
  unfolding Terminates
  submit-Terminates format_id payload short format enough =
      let v' = submit cap LogLevel.fatal format_id payload v in
      let (l', e, s') = submit_lem env fuel s LogLevel.fatal format_id payload short format in
      let keeps = submit_keeps cap LogLevel.fatal format_id payload v in
      let (q', stops, r') =
        stop_drains env fuel v.worker v'.frames enough s'.frames s'.queue room run loop in
      (
        record l' { worker = stopped env v.worker v'.frames; queue = q' },
        e
            ∙ finish_fatal l' (s'.fatal ∙ keeps.0 ∙ ends)
                (ap (λ w. stop env fuel w l'.queue) (s'.worker ∙ keeps.1) ∙ stops),
        refl,
        r',
      )

  accepted-Terminates :
      (m : Message)
      → IsWord m
      → IsShort m
      → length (accept cap LogLevel.fatal m v).frames < fuel
      → Terminates (log_message env fuel l LogLevel.fatal m) (accept cap LogLevel.fatal m v)
  unfolding log_message log_literal log_serialized
  accepted-Terminates (literal message) word short =
      rw fits (λ enough. submit-Terminates literal_id message short (omega arith) enough)
    where
      fits : leb max_payload_size (length message) ≡ false
      fits = ground arith
  accepted-Terminates (serialized format_id args) word short =
      rw fits (λ enough. submit-Terminates format_id args short.0 word enough)
    where
      fits : (leb max_payload_size (length args) || length args == 0) ≡ false
      fits = ground (arith, short.0, short.1)

  -- A fatal message that passes the level, is short enough and has a format identifier of 16 bits
  -- ends the process when `terminate_on_fatal_` is set and the worker is running in its loop with
  -- a dequeue buffer for the largest entry, but not before the worker, stopped with more fuel
  -- than there are entries in the queue, has delivered every entry in order and emptied the
  -- queue; the fatal entry is the last of them unless the queue had no room for it.
  pub fatal-Terminates :
      (m : Message)
      → IsWord m
      → IsShort m
      → length (log_view cap LogLevel.fatal m v).frames < fuel
      → Terminates (log env fuel l LogLevel.fatal m) (log_view cap LogLevel.fatal m v)
  unfolding log_view
  fatal-Terminates m word short =
      rw (log_settled env fuel s LogLevel.fatal m, passes, ap is_running run)
        (λ enough. accepted-Terminates m word short enough)
