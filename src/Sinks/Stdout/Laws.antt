-- ===== src/Sinks/Stdout/Laws.antt =====
-- What `StdoutSink` takes, and where its estimate of the length is too small.
use femtolog.Prelude.{
  ℕ, ◌+◌, ◌≤◌, ◌<◌, List, ◌++◌, Option, none, some, Bool, true, false, ◌≡◌, ◌⊎◌, refl, sym, ap, ap₂,
  ◌∙◌, subst, ◌==◌, ltb, leb, le→leb, lt→ltb, if◌then◌else◌, Bool-cases, inl, inr, length, arith,
  append-nil, append_assoc, length-append,
}
use femtolog.Level.{LogLevel, log_level_to_lower_str, log_level_to_ansi_color, level_len}
use femtolog.Sinks.Stdout.{
  buffer_capacity, StdoutSink, estimate_length, prefix, build_message, flush, write_direct,
  append_message, log_buffered, on_log,
}

-- By how much `estimate_length` falls short: a colour has five bytes, not four.
abbrev pub shortfall : Bool → ℕ
shortfall color = if color then 1 else 0

length-build_message :
    (color : Bool) (lvl : LogLevel) (content : List ℕ)
    → length (build_message color lvl content)
      ≤ shortfall color + estimate_length color lvl (length content)
unfolding build_message estimate_length prefix level_len log_level_to_lower_str
    log_level_to_ansi_color
length-build_message true LogLevel.raw content = omega arith
length-build_message true LogLevel.fatal content = omega arith
length-build_message true LogLevel.error content = omega arith
length-build_message true LogLevel.warn content = omega arith
length-build_message true LogLevel.info content = omega arith
length-build_message true LogLevel.debug content = omega arith
length-build_message true LogLevel.trace content = omega arith
length-build_message true LogLevel.unknown content = omega arith
length-build_message false LogLevel.raw content = omega arith
length-build_message false LogLevel.fatal content = omega arith
length-build_message false LogLevel.error content = omega arith
length-build_message false LogLevel.warn content = omega arith
length-build_message false LogLevel.info content = omega arith
length-build_message false LogLevel.debug content = omega arith
length-build_message false LogLevel.trace content = omega arith
length-build_message false LogLevel.unknown content = omega arith

-- Everything that the sink has taken, in order.
abbrev pub stream : StdoutSink → List ℕ
stream s = s.written ++ s.pending

-- What a call of `on_log` with the message `bytes` leaves.
pub Logged : StdoutSink → List ℕ → Option StdoutSink → Type 0
Logged s bytes result =
    (s' : StdoutSink) × (result ≡ some s')
    × (stream s' ≡ stream s ++ bytes)
    × (length s'.pending ≤ buffer_capacity)
    × (s'.color ≡ s.color)

append_message-Logged :
    (s : StdoutSink) (lvl : LogLevel) (content : List ℕ)
    → length s.pending + length (build_message s.color lvl content) ≤ buffer_capacity
    → Logged s (build_message s.color lvl content) (append_message s lvl content)
unfolding append_message Logged
append_message-Logged s lvl content room =
    let message = build_message s.color lvl content in
    (
      record s { pending = s.pending ++ message },
      rw (le→leb _ _ room) refl,
      sym (append_assoc s.written s.pending message),
      omega (arith, room, length-append s.pending message),
      refl,
    )

-- An empty buffer is left by `flush`, and nothing is lost.
flush_lem :
    (s : StdoutSink)
    → (length (flush s).pending ≡ 0) × (stream (flush s) ≡ stream s) × ((flush s).color ≡ s.color)
unfolding flush
flush_lem s = elim (Bool-cases (length s.pending == 0)) [
  | inl empty ↦ rw empty (ground (arith, empty), refl, refl)
  | inr full ↦ rw full (refl, append-nil (s.written ++ s.pending), refl)
]

-- The four ways through `on_log` that end in the buffer.
buffered_log :
    (s : StdoutSink) (lvl : LogLevel) (content : List ℕ)
    → s.buffering ≡ true
    → on_log s lvl content ≡ log_buffered s lvl content
unfolding on_log
buffered_log s lvl content buffered =
    ap (λ b. if b then log_buffered s lvl content else write_direct s lvl content) buffered

append_at_cursor :
    (s : StdoutSink) (lvl : LogLevel) (content : List ℕ)
    → length s.pending + estimate_length s.color lvl (length content) ≤ buffer_capacity
    → log_buffered s lvl content ≡ append_message s lvl content
unfolding log_buffered
append_at_cursor s lvl content room = rw (not_over, short) refl
  where
    not_over :
        ltb buffer_capacity (length s.pending + estimate_length s.color lvl (length content))
        ≡ false
    not_over = ground (arith, room)

    short : ltb buffer_capacity (estimate_length s.color lvl (length content)) ≡ false
    short = ground (arith, room)

append_flushed :
    (s : StdoutSink) (lvl : LogLevel) (content : List ℕ)
    → estimate_length s.color lvl (length content) ≤ buffer_capacity
    → buffer_capacity < length s.pending + estimate_length s.color lvl (length content)
    → log_buffered s lvl content ≡ append_message (flush s) lvl content
unfolding log_buffered
append_flushed s lvl content fits over = rw (lt→ltb _ _ over, short) refl
  where
    short : ltb buffer_capacity (estimate_length s.color lvl (length content)) ≡ false
    short = ground (arith, fits)

-- With a buffer that is not overfull, a message whose estimate fits it, with one byte to spare if
-- colours are on, is taken whole, behind everything that was taken before, if the estimate does
-- not fit behind the pending bytes, or fits there, again with one byte to spare if colours are
-- on.
pub on_log-Logged :
    (s : StdoutSink) (lvl : LogLevel) (content : List ℕ)
    → s.buffering ≡ true
    → length s.pending ≤ buffer_capacity
    → shortfall s.color + estimate_length s.color lvl (length content) ≤ buffer_capacity
    → (shortfall s.color + (length s.pending + estimate_length s.color lvl (length content))
        ≤ buffer_capacity)
      ⊎ (buffer_capacity < length s.pending + estimate_length s.color lvl (length content))
    → Logged s (build_message s.color lvl content) (on_log s lvl content)
unfolding Logged
on_log-Logged s lvl content buffered bounded fits (inl room) =
    subst (Logged s (build_message s.color lvl content))
      (sym (
        buffered_log s lvl content buffered ∙ append_at_cursor s lvl content (omega (arith, room))))
      (append_message-Logged s lvl content
        (omega (arith, room, length-build_message s.color lvl content)))
on_log-Logged s lvl content buffered bounded fits (inr over) =
    let (empty, taken, same) = flush_lem s in
    let message = ap (λ color. build_message color lvl content) same in
    let (s', e, taken', bounded', same') =
      append_message-Logged (flush s) lvl content
        (omega (arith, fits, empty, ap length message, length-build_message s.color lvl content)) in
    (
      s',
      buffered_log s lvl content buffered
          ∙ append_flushed s lvl content (omega (arith, fits)) over
          ∙ e,
      taken' ∙ ap₂ (λ (xs ys : List ℕ). xs ++ ys) taken message,
      bounded',
      same' ∙ same,
    )

append_message_full :
    (s : StdoutSink) (lvl : LogLevel) (content : List ℕ)
    → buffer_capacity < length s.pending + length (build_message s.color lvl content)
    → append_message s lvl content ≡ none
unfolding append_message
append_message_full s lvl content past = rw full refl
  where
    full :
        leb (length s.pending + length (build_message s.color lvl content)) buffer_capacity ≡ false
    full = ground (arith, past)

length-colored :
    (content : List ℕ)
    → length (build_message true LogLevel.error content)
      ≡ 1 + estimate_length true LogLevel.error (length content)
unfolding build_message estimate_length prefix level_len log_level_to_lower_str
    log_level_to_ansi_color
length-colored content = omega arith

-- With colours on, an error whose estimate fills the buffer to the last byte is written one byte past
-- its end.
pub on_log_past_end :
    (s : StdoutSink) (content : List ℕ)
    → s.buffering ≡ true
    → s.color ≡ true
    → length s.pending + estimate_length true LogLevel.error (length content) ≡ buffer_capacity
    → on_log s LogLevel.error content ≡ none
on_log_past_end s content buffered colored full =
    buffered_log s LogLevel.error content buffered
    ∙ append_at_cursor s LogLevel.error content (omega (arith, full, estimate))
    ∙ append_message_full s LogLevel.error content
        (omega (arith, full, message, length-colored content))
  where
    estimate :
        estimate_length s.color LogLevel.error (length content)
        ≡ estimate_length true LogLevel.error (length content)
    estimate = ap (λ color. estimate_length color LogLevel.error (length content)) colored

    message :
        length (build_message s.color LogLevel.error content)
        ≡ length (build_message true LogLevel.error content)
    message = ap (λ color. length (build_message color LogLevel.error content)) colored
