-- ===== src/Worker/Lifecycle/Restart.antt =====
-- A worker that is started again after `stop`: nothing resets `shutdown_required_`.
use femtolog.Prelude.{
  ℕ, zero, suc, ◌+◌, ◌≤◌, ◌<◌, ◌^◌, List, [], Option, some, ◌>>=◌, true, false, ◌≡◌, refl, sym, ap,
  ◌∙◌, subst, length, if◌then◌else◌, arith, lt→ltb, not,
}
use femtolog.Word.{u64}
use femtolog.Spsc.{Spsc}
use femtolog.Spsc.Invariant.{Represents}
use femtolog.Worker.{Worker, running, absent, looping, exited, Environment}
use femtolog.Worker.Processing.{AreFrames, Frame, frames_bytes, deliver_frames, flush_impl_lem}
use femtolog.Worker.Lifecycle.{
  flush_request, flush_returns, start, spawn, exit_loop, loop_body, turn, turn_of,
}
use femtolog.Worker.Lifecycle.Laws.{deliver_frames-SameControl, flush_request_running}

module _ (env : Environment) (fuel : ℕ) where
  -- `n` turns of the thread.
  pub turns : ℕ → Worker → Spsc → Option (Worker × Spsc)
  turns zero w q = some (w, q)
  turns (suc n) w q = turn env fuel w q >>= λ (w', q'). turns n w' q'

  turns_exited : (n : ℕ) (w : Worker) (q : Spsc) → w.thread ≡ exited → turns n w q ≡ some (w, q)
  unfolding turns turn turn_of
  turns_exited zero w q done = refl
  turns_exited (suc n) w q done =
      ap (λ t. turn_of env fuel t w q >>= λ (w', q'). turns n w' q') done ∙ turns_exited n w q done

  -- Whatever is in the queue `q`, a flush asked of the worker `w` does not return after any number
  -- of turns.
  pub Hangs : Worker → Type 0
  Hangs w =
      (n : ℕ) (q : Spsc)
      → (turns n (flush_request w) q ≡ some (flush_request w, q))
        × (flush_returns (flush_request w) (flush_request w).flush_requested_seq ≡ false)

  exited-Hangs :
      (w : Worker)
      → w.status ≡ running
      → w.thread ≡ exited
      → w.flush_completed_seq < u64 (w.flush_requested_seq + 1)
      → Hangs w
  unfolding Hangs flush_returns
  exited-Hangs w run done pending n q =
      subst
        (λ asked.
          (turns n asked q ≡ some (asked, q))
          × (flush_returns asked asked.flush_requested_seq ≡ false))
        (sym (flush_request_running w run))
        (
          turns_exited n (record w { flush_requested_seq = u64 (w.flush_requested_seq + 1) }) q
              done,
          ap not (lt→ltb _ _ pending),
        )

  -- A worker that `stop` has left behind, its thread joined and `shutdown_required_` still set,
  -- can be started again, but the first turn of its new thread, with more fuel than there are
  -- entries in the queue and a dequeue buffer for the largest one, empties the queue and ends the
  -- thread, and a later `flush` does not return after any number of turns. The sequence number
  -- must not wrap.
  pub restart-Hangs :
      {cap : ℕ} {q : Spsc} (w : Worker) (fs : List Frame)
      → w.thread ≡ absent
      → w.shutdown_required ≡ true
      → w.flush_requested_seq + 1 < 2 ^ 64
      → length fs < fuel
      → AreFrames fs
      → Represents cap q (frames_bytes fs)
      → 1023 ≤ w.dequeue_buffer_size
      → (w' : Worker) × (w'' : Worker) × (q' : Spsc) × (start w ≡ some w')
        × (turn env fuel w' q ≡ some (w'', q'))
        × Represents cap q' []
        × Hangs w''
  unfolding start turn turn_of exit_loop
  restart-Hangs {cap} {q} w fs idle stopped small enough frames r room =
      let w' = record w { thread = looping; status = running } in
      let (q', drained, r') = flush_impl_lem env fs {q = q} fuel w' enough frames r room in
      let ended = record (deliver_frames env w' fs) {
        flush_completed_seq = (deliver_frames env w' fs).flush_requested_seq;
        thread = exited;
      } in
      let same = deliver_frames-SameControl env fs w' in
      (
        w',
        ended,
        q',
        ap (λ t. spawn t w) idle,
        ap (λ b. if b then exit_loop env fuel w' q else loop_body env fuel w' q) stopped
            ∙ rw drained refl,
        r',
        exited-Hangs ended same.status refl (omega (arith, same.requested)),
      )
