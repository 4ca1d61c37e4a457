-- ===== src/Logger/Log.antt =====
-- One entry of `InternalLogger::log` against the view of the logger.
use femtolog.Prelude.{
  ℕ, ◌+◌, ◌-◌, ◌<◌, ◌^◌, List, [], ◌∷◌, ◌++◌, Bool, ◌≡◌, sym, ap, ap₂, ◌∙◌, subst, length, inl, inr,
  Bool-cases, ltb, arith, append-nil,
}
use femtolog.Spsc.{Spsc, Status, ok, overflow, enqueue_bytes}
use femtolog.Spsc.Invariant.{Represents}
use femtolog.Spsc.Enqueue.{Enqueued, enqueue_bytes_refines}
use femtolog.Spsc.Fifo
use femtolog.Level.{LogLevel}
use femtolog.Entry.{entry_size}
use femtolog.Worker.{Environment, max_payload_size}
use femtolog.Worker.Processing.{Frame, IsFrame, frame_bytes, frames_bytes, length-frame_bytes}
use femtolog.Logger.{InternalLogger, finish, create_and_enqueue}
use femtolog.Logger.Enqueue.{
  frame_of, frame_of-IsFrame, create_and_enqueue_lem, entry_frame, entry_frame_lem, enqueued,
  padding_of-filled, length-filled, length-padding_of,
}
use femtolog.Logger.View.{View, Stands, drop_one, submit, frames_bytes-append, AreFrames-append}

module _ (env : Environment) (fuel : ℕ) {cap : ℕ} {l : InternalLogger} {v : View}
    (s : Stands cap l v) (lvl : LogLevel) (format_id : ℕ) (payload : List ℕ)
    (short : length payload < max_payload_size) (format : format_id < 2 ^ 16) where
  new_frame : Frame
  new_frame = frame_of v.padding v.thread_id lvl format_id payload

  new_frame-IsFrame : IsFrame new_frame
  unfolding new_frame
  new_frame-IsFrame =
      frame_of-IsFrame v.padding v.thread_id lvl format_id payload seven s.small format short
    where
      seven : length v.padding ≡ 7
      seven =
          ap length (sym s.padding)
          ∙ length-padding_of l.entry_buffer l.thread_id lvl format_id payload s.buffer short

  thread : l.thread_id < 2 ^ 32
  thread = omega (arith, s.thread, s.small)

  entry_frame-new :
      entry_frame env fuel l lvl format_id payload s.buffer short thread format ≡ new_frame
  unfolding new_frame
  entry_frame-new =
      entry_frame_lem env fuel l lvl format_id payload s.buffer short thread format
      ∙ ap₂ (λ padding thread_id. frame_of padding thread_id lvl format_id payload) s.padding
          s.thread

  length-new_frame : length (frame_bytes new_frame) ≡ entry_size + length payload
  unfolding new_frame
  length-new_frame = length-frame_bytes new_frame new_frame-IsFrame

  after : Status → Spsc → InternalLogger
  after status q = enqueued env fuel l lvl format_id payload s.buffer short thread format status q

  taken-Stands :
      (q : Spsc)
      → Represents cap q (frames_bytes (v.frames ++ (new_frame ∷ [])))
      → Stands cap
          (after ok q)
          (record v { frames = v.frames ++ (new_frame ∷ []); enqueued = v.enqueued + 1 })
  unfolding after enqueued
  taken-Stands q r = record {
    queue = r;
    frames = AreFrames-append v.frames new_frame s.frames new_frame-IsFrame;
    enqueued = omega (arith, s.enqueued);
    dropped = s.dropped;
    limit = s.limit;
    thread = s.thread;
    small = s.small;
    buffer =
        length-filled l.entry_buffer l.thread_id lvl format_id payload s.buffer short thread format;
    padding =
        padding_of-filled l.entry_buffer l.thread_id lvl format_id payload s.buffer short
        ∙ s.padding;
    worker = s.worker;
    fatal = s.fatal;
  }

  refused-Stands :
      (q : Spsc)
      → Represents cap q (frames_bytes v.frames)
      → Stands cap (after overflow q) (drop_one v)
  unfolding after enqueued
  refused-Stands q r = record {
    queue = r;
    frames = s.frames;
    enqueued = s.enqueued;
    dropped = omega (arith, s.dropped);
    limit = s.limit;
    thread = s.thread;
    small = s.small;
    buffer =
        length-filled l.entry_buffer l.thread_id lvl format_id payload s.buffer short thread format;
    padding =
        padding_of-filled l.entry_buffer l.thread_id lvl format_id payload s.buffer short
        ∙ s.padding;
    worker = s.worker;
    fatal = s.fatal;
  }

  Enqueued-frame :
      (out : Status × List ℕ)
      → Fifo.enqueue cap (frames_bytes v.frames) (frame_bytes new_frame) ≡ out
      → Enqueued cap
          (enqueue_bytes l.queue (
            frame_bytes
              (entry_frame env fuel l lvl format_id payload s.buffer short thread format)))
          out.0
          out.1
  Enqueued-frame out e =
      subst (λ f. Enqueued cap (enqueue_bytes l.queue (frame_bytes f)) out.0 out.1)
        (sym entry_frame-new)
        (subst (λ out'. Enqueued cap (enqueue_bytes l.queue (frame_bytes new_frame)) out'.0 out'.1)
          e (enqueue_bytes_refines s.queue (frame_bytes new_frame)))

  appended :
      frames_bytes v.frames ++ frame_bytes new_frame ≡ frames_bytes (v.frames ++ (new_frame ∷ []))
  appended =
      ap (λ bs. frames_bytes v.frames ++ bs) (sym (append-nil (frame_bytes new_frame)))
      ∙ sym (frames_bytes-append v.frames (new_frame ∷ []))

  space : Bool
  space = ltb (cap - length (frames_bytes v.frames)) (length (frame_bytes new_frame))

  space-length : space ≡ ltb (cap - length (frames_bytes v.frames)) (entry_size + length payload)
  unfolding space
  space-length = ap (λ (n : ℕ). ltb (cap - length (frames_bytes v.frames)) n) length-new_frame

  -- One `enqueue_bytes` does what `submit` says.
  pub submit_lem :
      (l' : InternalLogger) × (create_and_enqueue env fuel l lvl format_id payload
        ≡ finish env fuel lvl l')
      × Stands cap l' (submit cap lvl format_id payload v)
  unfolding new_frame after space
  submit_lem =
      elim (Bool-cases (ltb (cap - length (frames_bytes v.frames)) (entry_size + length payload))) [
        | inl full ↦
            let (q, e, r) =
              Enqueued-frame (overflow, frames_bytes v.frames)
                (Fifo.enqueue_full cap (frames_bytes v.frames) (frame_bytes new_frame)
                  (omega (arith, length-new_frame)) (space-length ∙ full)) in
            rw full (
              after overflow q,
              create_and_enqueue_lem env fuel l lvl format_id payload s.buffer short thread format
                  overflow q e,
              refused-Stands q r,
            )
        | inr fits ↦
            let (q, e, r) =
              Enqueued-frame (ok, frames_bytes v.frames ++ frame_bytes new_frame)
                (Fifo.enqueue_fits cap (frames_bytes v.frames) (frame_bytes new_frame)
                  (omega (arith, length-new_frame)) (space-length ∙ fits)) in
            rw fits (
              after ok q,
              create_and_enqueue_lem env fuel l lvl format_id payload s.buffer short thread format
                  ok q e,
              taken-Stands q (subst (Represents cap q) appended r),
            )
      ]
