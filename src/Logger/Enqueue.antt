-- ===== src/Logger/Enqueue.antt =====
-- `log_literal`, `log_serialized` and `enqueue_log_entry`: an entry in the buffer is a frame for the
-- queue.
use femtolog.Prelude.{
  ℕ, ◌+◌, ◌<◌, ◌^◌, List, ◌++◌, some, ◌≡◌, refl, sym, ap, ◌∙◌, length, take, drop, le→leb, arith,
  length-append, length-take, length-drop, take-eq_of_append, append_assoc,
}
use femtolog.Word.{u16}
use femtolog.Spsc.{Spsc, Status, enqueue_bytes}
use femtolog.Level.{LogLevel}
use femtolog.Entry.{entry_size, header_bytes, header_at, create}
use femtolog.Entry.Codec.{header_at-header_bytes, padding-header_bytes}
use femtolog.Worker.{Environment, max_payload_size}
use femtolog.Worker.Processing.{Frame, IsFrame, frame_bytes, length-frame_bytes}
use femtolog.Logger.{InternalLogger, count, finish, enqueue_log_entry, create_and_enqueue}

-- The frame that a call of `log` makes.
abbrev pub frame_of : List ℕ → ℕ → LogLevel → ℕ → List ℕ → Frame
frame_of padding thread_id lvl format_id payload = record {
  entry = record {
    payload_len = length payload;
    format_id = format_id;
    thread_id = thread_id;
    timestamp_ns = 0;
    level = lvl;
  };
  padding = padding;
  payload = payload;
}

-- Bytes 17 to 23 of the buffer, between the header's fields and the payload.
abbrev pub padding_of : List ℕ → List ℕ
padding_of buffer = take 7 (drop 17 buffer)

abbrev pub buffer_size : ℕ
buffer_size = entry_size + max_payload_size

pub frame_of-IsFrame :
    (padding : List ℕ) (thread_id : ℕ) (lvl : LogLevel) (format_id : ℕ) (payload : List ℕ)
    → length padding ≡ 7
    → thread_id < 2 ^ 32
    → format_id < 2 ^ 16
    → length payload < max_payload_size
    → IsFrame (frame_of padding thread_id lvl format_id payload)
frame_of-IsFrame padding thread_id lvl format_id payload seven thread format short = record {
  fields = record {
    payload_len = omega arith;
    format_id = format;
    thread_id = thread;
    timestamp_ns = omega arith;
  };
  padded = seven;
  sized = refl;
  limited = short;
}

module _ (buffer : List ℕ) (thread_id : ℕ) (lvl : LogLevel) (format_id : ℕ) (payload : List ℕ)
    (full : length buffer ≡ buffer_size) (short : length payload < max_payload_size) where
  pub made : Frame
  made = frame_of (padding_of buffer) thread_id lvl format_id payload

  pub left_over : List ℕ
  left_over = drop (entry_size + length payload) buffer

  pub length-padding_of : length (padding_of buffer) ≡ 7
  length-padding_of = omega (arith, length-take 7 (drop 17 buffer), length-drop 17 buffer)

  pub create_lem :
      create buffer thread_id format_id lvl 0 payload ≡ some (frame_bytes made ++ left_over)
  unfolding create made left_over
  create_lem = rw (
    le→leb (entry_size + length payload) (length buffer) (omega arith),
    narrow,
    append_assoc (header_bytes made.entry made.padding) payload
        (drop (entry_size + length payload) buffer),
  )
    where
      narrow : u16 (length payload) ≡ length payload
      narrow = omega arith

  pub made-IsFrame : thread_id < 2 ^ 32 → format_id < 2 ^ 16 → IsFrame made
  unfolding made
  made-IsFrame thread format =
      frame_of-IsFrame (padding_of buffer) thread_id lvl format_id payload length-padding_of thread
        format short

  -- The buffer with the entry in it.
  pub filled : List ℕ
  filled = frame_bytes made ++ left_over

  length-made :
      thread_id < 2 ^ 32
      → format_id < 2 ^ 16
      → length (frame_bytes made) ≡ entry_size + length payload
  unfolding made
  length-made thread format = length-frame_bytes made (made-IsFrame thread format)

  pub length-filled : thread_id < 2 ^ 32 → format_id < 2 ^ 16 → length filled ≡ buffer_size
  unfolding filled left_over
  length-filled thread format = omega (
    arith,
    length-append (frame_bytes made) left_over,
    length-made thread format,
    length-drop (entry_size + length payload) buffer,
  )

  pub padding_of-filled : padding_of filled ≡ padding_of buffer
  unfolding filled made
  padding_of-filled =
      ap padding_of (append_assoc (header_bytes made.entry made.padding) payload left_over)
      ∙ padding-header_bytes made.entry (padding_of buffer) (payload ++ left_over) length-padding_of

  pub header_at-filled : thread_id < 2 ^ 32 → format_id < 2 ^ 16 → header_at filled ≡ made.entry
  unfolding filled
  header_at-filled thread format =
      ap header_at (append_assoc (header_bytes made.entry made.padding) made.payload left_over)
      ∙ header_at-header_bytes made.entry made.padding (made.payload ++ left_over)
          (made-IsFrame thread format).fields

  pub take-filled :
      thread_id < 2 ^ 32
      → format_id < 2 ^ 16
      → take (entry_size + length payload) filled ≡ frame_bytes made
  unfolding filled
  take-filled thread format = sym (
      take-eq_of_append (entry_size + length payload) (frame_bytes made) left_over
        (length-made thread format) refl)

module _ (env : Environment) (fuel : ℕ) (l : InternalLogger) (lvl : LogLevel) (format_id : ℕ)
    (payload : List ℕ) (full : length l.entry_buffer ≡ buffer_size)
    (short : length payload < max_payload_size) (thread : l.thread_id < 2 ^ 32)
    (format : format_id < 2 ^ 16) where
  pub entry_frame : Frame
  entry_frame = made l.entry_buffer l.thread_id lvl format_id payload full short

  pub entry_frame_lem :
      entry_frame ≡ frame_of (padding_of l.entry_buffer) l.thread_id lvl format_id payload
  unfolding entry_frame made
  entry_frame_lem = refl

  -- The logger behind `enqueue_bytes`.
  unfoldable pub enqueued : Status → Spsc → InternalLogger
  enqueued status q = count status (record l {
    queue = q;
    entry_buffer = filled l.entry_buffer l.thread_id lvl format_id payload full short;
  })

  -- What the frontend does for an entry whose payload is short enough: one `enqueue_bytes` of its
  -- frame, the counter by the status, and the end of a fatal entry.
  pub create_and_enqueue_lem :
      (status : Status) (q : Spsc)
      → enqueue_bytes l.queue (frame_bytes entry_frame) ≡ some (status, q)
      → create_and_enqueue env fuel l lvl format_id payload
        ≡ finish env fuel lvl (enqueued status q)
  unfolding create_and_enqueue enqueue_log_entry enqueued entry_frame filled made
  create_and_enqueue_lem status q e =
      let made_it = create_lem l.entry_buffer l.thread_id lvl format_id payload full short in
      let header =
        header_at-filled l.entry_buffer l.thread_id lvl format_id payload full short thread
          format in
      let bytes =
        take-filled l.entry_buffer l.thread_id lvl format_id payload full short thread format in
      let size =
        length-filled l.entry_buffer l.thread_id lvl format_id payload full short thread format in
      rw
        (
          made_it,
          header,
          le→leb (entry_size + length payload) (length filled_buffer) (omega arith),
          bytes,
          e,
        )
        refl
    where
      filled_buffer : List ℕ
      filled_buffer = filled l.entry_buffer l.thread_id lvl format_id payload full short
