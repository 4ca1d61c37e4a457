-- ===== src/Logger/Session.antt =====
-- Sequences of calls of `log`, the stop of the worker behind them, and fatal entries.
use femtolog.Prelude.{
  ℕ, ◌≤◌, ◌<◌, List, [], ◌∷◌, Option, some, ◌>>=◌, false, ◌≡◌, refl, ap, ◌∙◌, length, arith,
}
use femtolog.Spsc.{Spsc}
use femtolog.Spsc.Invariant.{Represents}
use femtolog.Level.{LogLevel}
use femtolog.Worker.{running, looping, Environment}
use femtolog.Worker.Lifecycle.{stop}
use femtolog.Worker.Lifecycle.Laws.{stopped, stop_drains}
use femtolog.Logger.{InternalLogger, Message, Outcome, returned, terminated, log}
use femtolog.Logger.View.{View, Stands, log_view, log_view_keeps}
use femtolog.Logger.Refine.{IsWord, Returns, log_refines}

-- One call after the other, until one ends the process.
pub log_all : Environment → ℕ → List (LogLevel × Message) → InternalLogger → Option Outcome
log_all env fuel [] l = some (returned l)
log_all env fuel (call ∷ calls) l = log env fuel l call.0 call.1 >>= λ outcome. elim outcome [
  | returned l' ↦ log_all env fuel calls l'
  | terminated l' ↦ some (terminated l')
]

abbrev pub log_all_view : ℕ → List (LogLevel × Message) → View → View
log_all_view cap [] v = v
log_all_view cap (call ∷ calls) v = log_all_view cap calls (log_view cap call.0 call.1 v)

abbrev pub AreWords : List (LogLevel × Message) → Type 0
AreWords [] = Unit
AreWords (call ∷ calls) = IsWord call.1 × AreWords calls

module _ (env : Environment) (fuel : ℕ) {cap : ℕ} where
  log_all-Returns :
      (calls : List (LogLevel × Message)) {l : InternalLogger} {v : View}
      → AreWords calls
      → v.terminate_on_fatal ≡ false
      → Stands cap l v
      → Returns cap (log_all env fuel calls l) (log_all_view cap calls v)
        × ((log_all_view cap calls v).worker ≡ v.worker)
  unfolding log_all
  log_all-Returns [] {l} words stays s = ((l, refl, s), refl)
  log_all-Returns (call ∷ calls) {l} {v} words stays s =
      let (l', e, s') = log_refines env fuel s call.0 (ground (arith, stays)) call.1 words.0 in
      let ((l'', e', s''), same) =
        log_all-Returns calls words.1 ((log_view_keeps cap call.0 call.1 v).0 ∙ stays) s' in
      ((l'', rw e e', s''), same ∙ (log_view_keeps cap call.0 call.1 v).1)

  -- A whole session: from a running worker in its loop, with a dequeue buffer for the largest
  -- entry, and a logger that stands for the view `v` and does not end the process on a fatal
  -- entry, any calls of `log` with format identifiers of 16 bits return, with the counters that
  -- the view gives; the `stop` of the worker after them, with more fuel than there are entries in
  -- the queue, then delivers exactly the entries of the view, in the order of the calls, and
  -- empties the queue.
  pub session_lem :
      (calls : List (LogLevel × Message)) {l : InternalLogger} {v : View}
      → AreWords calls
      → Stands cap l v
      → v.terminate_on_fatal ≡ false
      → v.worker.status ≡ running
      → v.worker.thread ≡ looping
      → 1023 ≤ v.worker.dequeue_buffer_size
      → length (log_all_view cap calls v).frames < fuel
      → let v' = log_all_view cap calls v in
        (l' : InternalLogger) × (q' : Spsc) × (log_all env fuel calls l ≡ some (returned l'))
        × Stands cap l' v'
        × (stop env fuel l'.worker l'.queue ≡ some (stopped env v.worker v'.frames, q'))
        × Represents cap q' []
  session_lem calls {l} {v} words s stays run loop room enough =
      let v' = log_all_view cap calls v in
      let ((l', e, s'), same) = log_all-Returns calls words stays s in
      let (q', stops, r') =
        stop_drains env fuel v.worker v'.frames enough s'.frames s'.queue room run loop in
      (l', q', e, s', ap (λ w. stop env fuel w l'.queue) (s'.worker ∙ same) ∙ stops, r')
