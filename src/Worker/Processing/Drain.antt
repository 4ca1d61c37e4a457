-- ===== src/Worker/Processing/Drain.antt =====
-- `flush_impl` empties a queue of entries, in order.
use femtolog.Prelude.{ℕ, zero, suc, ◌≤◌, ◌<◌, List, [], ◌∷◌, some, false, ◌≡◌, length, arith}
use femtolog.Spsc.{Spsc}
use femtolog.Spsc.Invariant.{Represents}
use femtolog.Spsc.Dequeue.{peek_bytes_refines}
use femtolog.Spsc.Fifo
use femtolog.Worker.{
  Worker, Environment, process_serialized, read_after_peek, read_and_process_one, flush_impl,
}
use femtolog.Worker.Processing.Frames.{Frame, AreFrames, frames_bytes, deliver_frame, read_frame}

module _ (env : Environment) where
  -- On an empty queue `read_and_process_one` returns false and does nothing.
  pub read_nothing :
      {cap : ℕ} {q : Spsc} (w : Worker)
      → Represents cap q []
      → read_and_process_one env w q ≡ some (false, w, q)
  unfolding read_and_process_one read_after_peek Fifo.peek
  read_nothing w r = rw (peek_bytes_refines r 2)

  unfoldable pub deliver_frames : Worker → List Frame → Worker
  deliver_frames w [] = w
  deliver_frames w (f ∷ fs) = deliver_frames (deliver_frame env w f) fs

  pub dequeue_buffer_size-deliver_frame :
      (w : Worker) (f : Frame) → (deliver_frame env w f).dequeue_buffer_size ≡ w.dequeue_buffer_size
  unfolding deliver_frame process_serialized
  dequeue_buffer_size-deliver_frame w f = ground arith

  -- On a queue that holds the frames `fs`, with more fuel than there are frames and a buffer for the
  -- largest entry, `flush_impl` ends, delivers exactly these frames in their order, and leaves the
  -- queue empty. No copy leaves a buffer.
  pub flush_impl_lem :
      {cap : ℕ} (fs : List Frame) {q : Spsc} (fuel : ℕ) (w : Worker)
      → length fs < fuel
      → AreFrames fs
      → Represents cap q (frames_bytes fs)
      → 1023 ≤ w.dequeue_buffer_size
      → (q' : Spsc) × (flush_impl env fuel w q ≡ some (deliver_frames w fs, q'))
        × Represents cap q' []
  unfolding flush_impl deliver_frames
  flush_impl_lem fs zero w lt v r room = absurd (omega arith)
  flush_impl_lem [] {q} (suc fuel) w lt v r room = (q, rw (read_nothing w r), r)
  flush_impl_lem (f ∷ fs) (suc fuel) w lt v r room =
      let (q', read, r') = read_frame env w f (frames_bytes fs) v.0 r room in
      let (q'', rest, r'') =
        flush_impl_lem fs {q = q'} fuel (deliver_frame env w f) (omega arith) v.1 r'
          (omega (arith, dequeue_buffer_size-deliver_frame w f)) in
      (q'', rw read rest, r'')
