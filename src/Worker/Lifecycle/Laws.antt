-- ===== src/Worker/Lifecycle/Laws.antt =====
-- A turn of the worker and its stop, on a queue of entries.
use femtolog.Prelude.{
  ℕ, ◌+◌, ◌≤◌, ◌<◌, ◌^◌, List, [], ◌∷◌, some, ◌>>=◌, true, false, ◌≡◌, refl, sym, ap, ◌∙◌, subst,
  length, if◌then◌else◌, arith, lt→ltb, ltb_irrefl, not,
}
use femtolog.Word.{u64}
use femtolog.Spsc.{Spsc}
use femtolog.Spsc.Invariant.{Represents}
use femtolog.Worker.{Worker, running, idling, absent, looping, Environment, process_serialized}
use femtolog.Worker.Polling.{apply_polling_strategy}
use femtolog.Worker.Processing.{
  AreFrames, Frame, frames_bytes, deliver_frame, deliver_frames, flush_impl_lem, read_nothing,
}
use femtolog.Worker.Lifecycle.{
  is_running, flush_request, flush_returns, exit_loop, serve_flush, loop_body, turn_of, turn, join,
  stop,
}

-- What processing entries leaves alone.
pub record SameControl (w w' : Worker) : Type 0 where
  pub status : w'.status ≡ w.status
  pub thread : w'.thread ≡ w.thread
  pub shutdown : w'.shutdown_required ≡ w.shutdown_required
  pub requested : w'.flush_requested_seq ≡ w.flush_requested_seq
  pub completed : w'.flush_completed_seq ≡ w.flush_completed_seq
  pub buffer : w'.dequeue_buffer_size ≡ w.dequeue_buffer_size

module _ (env : Environment) where
  deliver_frame-SameControl : (w : Worker) (f : Frame) → SameControl w (deliver_frame env w f)
  unfolding deliver_frame process_serialized
  deliver_frame-SameControl w f = ground arith

  pub deliver_frames-SameControl :
      (fs : List Frame) (w : Worker) → SameControl w (deliver_frames env w fs)
  unfolding deliver_frames
  deliver_frames-SameControl [] w = ground arith
  deliver_frames-SameControl (f ∷ fs) w =
      ground (
        arith,
        deliver_frame-SameControl w f,
        deliver_frames-SameControl fs (deliver_frame env w f),
      )

-- What `stop` makes of a running worker with the frames `fs` in its queue.
unfoldable pub stopped : Environment → Worker → List Frame → Worker
stopped env w fs = record (deliver_frames env (record w { shutdown_required = true }) fs) {
  status = idling;
  thread = absent;
  flush_completed_seq = w.flush_requested_seq;
}

module _ (env : Environment) (fuel : ℕ) {cap : ℕ} {q : Spsc} (w : Worker) (fs : List Frame)
    (enough : length fs < fuel) (frames : AreFrames fs) (r : Represents cap q (frames_bytes fs))
    (room : 1023 ≤ w.dequeue_buffer_size) where
  -- On a queue of entries, with more fuel than there are entries and a dequeue buffer for the
  -- largest one, `stop` of a worker that is running in its loop joins the thread, which first
  -- delivers every entry of the queue in order; it leaves the queue empty, the worker idle and no
  -- flush pending.
  pub stop_drains :
      w.status ≡ running
      → w.thread ≡ looping
      → (q' : Spsc) × (stop env fuel w q ≡ some (stopped env w fs, q')) × Represents cap q' []
  unfolding stop join exit_loop stopped
  stop_drains run loop =
      let w' = record w { shutdown_required = true } in
      let (q', drained, r') = flush_impl_lem env fs fuel w' enough frames r room in
      (
        q',
        ap
              (λ b.
                if is_running b
                then (join env fuel w.thread w' q >>= λ (w'', q'').
                    some (record w'' { status = idling }, q''))
                else some (w, q))
              run
            ∙ ap
                (λ t.
                  join env fuel t w' q >>= λ (w'', q''). some (record w'' { status = idling }, q''))
                loop
            ∙ rw (drained, (deliver_frames-SameControl env fs w').requested) refl,
        r',
      )

  -- A turn of the loop with a flush pending.
  pub turn_serves :
      w.thread ≡ looping
      → w.shutdown_required ≡ false
      → w.flush_completed_seq < w.flush_requested_seq
      → (q' : Spsc) × (turn env fuel w q
          ≡ some (
            (apply_polling_strategy
                (record (deliver_frames env w fs) { flush_completed_seq = w.flush_requested_seq })
                false).0,
            q',
          ))
        × Represents cap q' []
  unfolding turn turn_of loop_body serve_flush
  turn_serves loop live pending =
      let (q', drained, r') = flush_impl_lem env fs fuel w enough frames r room in
      let w' = record (deliver_frames env w fs) { flush_completed_seq = w.flush_requested_seq } in
      (
        q',
        ap (λ t. turn_of env fuel t w q) loop
            ∙ ap (λ b. if b then exit_loop env fuel w q else loop_body env fuel w q) live
            ∙ rw (lt→ltb _ _ pending, drained, read_nothing env w' r') refl,
        r',
      )

pub flush_request_running :
    (w : Worker)
    → w.status ≡ running
    → flush_request w ≡ record w { flush_requested_seq = u64 (w.flush_requested_seq + 1) }
unfolding flush_request
flush_request_running w run =
    ap
      (λ s.
        if is_running s
        then record w { flush_requested_seq = u64 (w.flush_requested_seq + 1) }
        else w)
      run

module _ (env : Environment) where
  -- What a flush of the frames `fs` achieves, from the worker `asked`.
  pub Flushes : (cap fuel : ℕ) (asked : Worker) (q : Spsc) (fs : List Frame) → Type 0
  Flushes cap fuel asked q fs =
      (w' : Worker) × (q' : Spsc) × (turn env fuel asked q ≡ some (w', q'))
      × (w'.sinks ≡ (deliver_frames env asked fs).sinks)
      × (flush_returns w' asked.flush_requested_seq ≡ true)
      × Represents cap q' []

  -- After `flush` has made its request to a worker that is running in its loop, is not shutting
  -- down and has no other flush pending, one turn of the loop, with more fuel than there are
  -- entries in the queue and a dequeue buffer for the largest one, delivers every entry in order
  -- and empties the queue, and the wait of `flush` ends. The sequence number must not wrap.
  pub turn-Flushes :
      {cap : ℕ} (fuel : ℕ) {q : Spsc} (w : Worker) (fs : List Frame)
      → length fs < fuel
      → AreFrames fs
      → Represents cap q (frames_bytes fs)
      → 1023 ≤ w.dequeue_buffer_size
      → w.status ≡ running
      → w.thread ≡ looping
      → w.shutdown_required ≡ false
      → w.flush_completed_seq ≡ w.flush_requested_seq
      → w.flush_requested_seq + 1 < 2 ^ 64
      → Flushes cap fuel (flush_request w) q fs
  unfolding apply_polling_strategy flush_returns Flushes
  turn-Flushes {cap} fuel {q} w fs enough frames r room run loop live idle small =
      subst (λ asked. Flushes cap fuel asked q fs) (sym (flush_request_running w run))
        (let asked = record w { flush_requested_seq = u64 (w.flush_requested_seq + 1) } in
          let (q', turned, r') =
            turn_serves env fuel {q = q} asked fs enough frames r room loop live (omega arith) in
          (_, q', turned, refl, ap not (ltb_irrefl asked.flush_requested_seq), r'))
