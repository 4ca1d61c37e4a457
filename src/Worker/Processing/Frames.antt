-- ===== src/Worker/Processing/Frames.antt =====
-- The entries that stand in the queue, and what processing one of them does.
use femtolog.Prelude.{
  ℕ, ◌+◌, ◌≤◌, ◌<◌, List, [], ◌∷◌, ◌++◌, some, true, ◌≡◌, refl, sym, ap, ◌∙◌, subst, min, length,
  take, drop, length-append, drop-eq_of_append, append_assoc, take_all, leb, le→leb, lt→ltb, ◌==◌,
  Bool-cases, inl, inr, if◌then◌else◌, arith,
}
use femtolog.Word.{add_size}
use femtolog.Spsc.{Spsc, ok, peek_bytes, dequeue_bytes}
use femtolog.Spsc.Invariant.{Represents}
use femtolog.Spsc.Dequeue.{Dequeued, dequeue_bytes_refines, peek_bytes_refines}
use femtolog.Spsc.Fifo
use femtolog.Entry.{LogEntry, entry_size, to_bytes, header_bytes, copy_raw_payload}
use femtolog.Entry.Codec.{
  IsValid, header_at-header_bytes, length-header_bytes, take_two-header_bytes, of_bytes-to_bytes2,
}
use femtolog.Worker.{
  Worker, Environment, deliver, literal_id, max_payload_size, process_literal, process_serialized,
  process_log_entry, process_dequeued, read_after_peek, read_and_process_one,
}

-- An entry as it stands in the queue.
pub record Frame : Type 0 where
  pub entry : LogEntry
  pub padding : List ℕ
  pub payload : List ℕ

abbrev pub frame_bytes : Frame → List ℕ
frame_bytes f = header_bytes f.entry f.padding ++ f.payload

-- What the frontend writes: fields in range, and a payload below the limit.
pub record IsFrame (f : Frame) : Type 0 where
  pub fields : IsValid f.entry
  pub padded : length f.padding ≡ 7
  pub sized : f.entry.payload_len ≡ length f.payload
  pub limited : length f.payload < max_payload_size

-- The bytes of several frames, one behind the other.
abbrev pub frames_bytes : List Frame → List ℕ
frames_bytes [] = []
frames_bytes (f ∷ fs) = frame_bytes f ++ frames_bytes fs

abbrev pub AreFrames : List Frame → Type 0
AreFrames [] = Unit
AreFrames (f ∷ fs) = IsFrame f × AreFrames fs

pub length-frame_bytes :
    (f : Frame) → IsFrame f → length (frame_bytes f) ≡ entry_size + f.entry.payload_len
length-frame_bytes f v = omega (
  arith,
  length-append (header_bytes f.entry f.padding) f.payload,
  length-header_bytes f.entry f.padding,
  v.padded,
  v.sized,
)

module _ (env : Environment) where
  -- What the sinks are to see of a frame, if anything.
  unfoldable pub deliver_frame : Worker → Frame → Worker
  deliver_frame w f =
      let entry = record f.entry { timestamp_ns = env.clock w.clock_reads } in
      let w' = record w { clock_reads = w.clock_reads + 1 } in
      if f.entry.format_id == literal_id
      then deliver (record { entry = entry; content = f.payload; len = length f.payload }) w'
      else process_serialized env w' entry f.payload

  process_frame :
      (w : Worker) (f : Frame)
      → IsFrame f
      → process_log_entry env w (frame_bytes f) ≡ some (deliver_frame w f)
  unfolding process_log_entry deliver_frame process_literal copy_raw_payload
  process_frame w f v =
      rw (header_at-header_bytes f.entry f.padding f.payload v.fields, back)
        (elim (Bool-cases (f.entry.format_id == literal_id)) [
          | inl literal ↦ rw (
            literal,
            whole,
            lt→ltb _ _ v.limited,
            take_all (length f.payload) f.payload (omega arith),
          )
          | inr formatted ↦ rw formatted
        ])
    where
      back : drop entry_size (frame_bytes f) ≡ f.payload
      back = sym (
          drop-eq_of_append entry_size (header_bytes f.entry f.padding) f.payload
            (omega (arith, length-header_bytes f.entry f.padding, v.padded)) refl)

      whole : min max_payload_size f.entry.payload_len ≡ length f.payload
      whole = omega (arith, v.sized, v.limited)

  module _ {cap : ℕ} {q : Spsc} (w : Worker) (f : Frame) (rest : List ℕ) (v : IsFrame f)
      (r : Represents cap q (frame_bytes f ++ rest)) (room : 1023 ≤ w.dequeue_buffer_size) where
    peeked : peek_bytes q 2 ≡ some (ok, to_bytes 2 f.entry.payload_len)
    peeked =
        peek_bytes_refines r 2
        ∙ ap some (
            Fifo.peek_front 2 (frame_bytes f ++ rest) (omega arith) (omega (arith, long))
            ∙ ap (λ bytes. (ok, bytes)) front)
      where
        long : 2 ≤ length (frame_bytes f ++ rest)
        long = omega (arith, length-append (frame_bytes f) rest, length-frame_bytes f v)

        front : take 2 (frame_bytes f ++ rest) ≡ to_bytes 2 f.entry.payload_len
        front =
            ap (take 2) (append_assoc (header_bytes f.entry f.padding) f.payload rest)
            ∙ take_two-header_bytes f.entry f.padding (f.payload ++ rest)

    total : ℕ
    total = entry_size + f.entry.payload_len

    dequeued :
        (q' : Spsc) × (dequeue_bytes q total ≡ some (ok, frame_bytes f, q'))
        × Represents cap q' rest
    unfolding total
    dequeued =
        subst (Dequeued cap (dequeue_bytes q total))
          (Fifo.dequeue-append total (frame_bytes f) rest (length-frame_bytes f v) (omega arith))
          (dequeue_bytes_refines r total)

    -- The entry at the front is taken off the queue and delivered.
    pub read_frame :
        (q' : Spsc) × (read_and_process_one env w q ≡ some (true, deliver_frame w f, q'))
        × Represents cap q' rest
    unfolding read_and_process_one read_after_peek process_dequeued total
    read_frame =
        let (q', taken, r') = dequeued in
        (
          q',
          rw (
            peeked,
            of_bytes-to_bytes2 f.entry.payload_len v.fields.payload_len,
            whole,
            taken,
            fits,
            process_frame w f v,
          ),
          r',
        )
      where
        whole : add_size entry_size f.entry.payload_len ≡ entry_size + f.entry.payload_len
        whole = omega (arith, v.sized, v.limited)

        fits : leb (length (frame_bytes f)) w.dequeue_buffer_size ≡ true
        fits = le→leb _ _ (omega (arith, length-frame_bytes f v, v.sized, v.limited))
