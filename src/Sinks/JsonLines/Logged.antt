-- ===== src/Sinks/JsonLines/Logged.antt =====
-- A call of `on_log` of `JsonLinesSink`: the object it stores, and the end of its array.
use femtolog.Prelude.{
  ℕ, ◌+◌, ◌^◌, ◌≤◌, ◌<◌, List, [], ◌∷◌, Option, none, true, ◌≡◌, refl, ◌⊎◌, inl, inr, length, ltb,
  if◌then◌else◌, arith, Bool-cases,
}
use femtolog.Level.{LogLevel, log_level_to_lower_str, codes}
use femtolog.Strings.Escape.{encode_escape}
use femtolog.Sinks.File
use femtolog.Sinks.File.{FileSink, Flushed, flush-Flushed}
use femtolog.Sinks.JsonLines.{
  quoted, decimal, json_line, read_array, write_raw, append_line, flush, on_log, Stored,
  on_log-Stored, buffer_capacity, max_json_line_size,
}
use femtolog.Sinks.JsonLines.Grammar.{Value, number, text, Members, Object}
use femtolog.Sinks.JsonLines.Line.{
  plain-Chars, level-Chars, encode_escape-Chars, decimal-IsValue, IsLoggable,
}

-- What a line is to say.
abbrev pub members : ℕ → LogLevel → List ℕ → List (List ℕ × Value)
members timestamp_ns lvl content =
    (codes "timestamp", number timestamp_ns)
    ∷ (codes "level", text (log_level_to_lower_str lvl))
    ∷ (codes "message", text content)
    ∷ []

json_line-Object :
    (timestamp_ns : ℕ) (lvl : LogLevel) (content : List ℕ)
    → timestamp_ns < 2 ^ 64
    → IsLoggable content
    → Object (json_line timestamp_ns lvl content) (members timestamp_ns lvl content) (10 ∷ [])
unfolding json_line
json_line-Object timestamp_ns lvl content small loggable = (
  refl,
  Members.member (decimal timestamp_ns) (number timestamp_ns) (plain-Chars (codes "timestamp") refl)
      (decimal-IsValue timestamp_ns small)
      (Members.member (quoted (log_level_to_lower_str lvl)) (text (log_level_to_lower_str lvl))
        (plain-Chars (codes "level") refl) (log_level_to_lower_str lvl, refl, level-Chars lvl)
        (Members.last_member (quoted (encode_escape content)) (text content) (10 ∷ [])
          (plain-Chars (codes "message") refl)
          (encode_escape content, refl, encode_escape-Chars content loggable))),
)

-- More than the array holds is read past its end.
overlong : (bytes : List ℕ) → max_json_line_size < length bytes → read_array bytes ≡ none
unfolding read_array
overlong bytes long = ground (arith, long)

on_log_overlong :
    (s : FileSink) (timestamp_ns : ℕ) (lvl : LogLevel) (content : List ℕ)
    → s.opened ≡ true
    → max_json_line_size < length (json_line timestamp_ns lvl content)
    → on_log true s timestamp_ns lvl content ≡ none
unfolding on_log write_raw append_line flush
on_log_overlong s timestamp_ns lvl content live long =
    let bytes = json_line timestamp_ns lvl content in
    elim (Bool-cases (ltb buffer_capacity (length s.pending + length bytes))) [
      | inl overfull ↦ rw overfull (faults (File.flush s) (flush-Flushed s live).opened)
      | inr room ↦ rw room (faults s live)
    ]
  where
    faults :
        (t : FileSink)
        → t.opened ≡ true
        → (if ltb buffer_capacity (length (json_line timestamp_ns lvl content))
            then write_raw t (json_line timestamp_ns lvl content)
            else append_line t (json_line timestamp_ns lvl content))
          ≡ none
    faults t open_file =
        elim (Bool-cases (ltb buffer_capacity (length (json_line timestamp_ns lvl content)))) [
          | inl whole ↦
              rw (whole, open_file, overlong (json_line timestamp_ns lvl content) long) refl
          | inr short ↦ rw (short, overlong (json_line timestamp_ns lvl content) long) refl
        ]

-- What a call leaves: a JSON object that says what was logged, with a newline behind it, stands behind
-- everything taken before, if it fits the array of the line; otherwise the call reads past the array.
abbrev pub Logged : FileSink → ℕ → LogLevel → List ℕ → Option FileSink → Type 0
Logged s timestamp_ns lvl content result =
    (line : List ℕ) × Object line (members timestamp_ns lvl content) (10 ∷ [])
    × (((length line ≤ max_json_line_size) × Stored s line result)
        ⊎ ((max_json_line_size < length line) × (result ≡ none)))

-- A buffered sink on an open file, whose buffer is not overfull, makes a line of a timestamp of 64
-- bits, a level and a message without double quotes, and without control bytes but line feed, carriage
-- return and tab. The line is an object in the grammar of RFC 8259, taken byte by byte, and a newline
-- behind it; the members of the object are the timestamp as a number, the name of the level, and, its
-- escapes decoded, the message. If the line has 2048 bytes at most, it is stored whole behind everything
-- taken before, with no copy past the buffer; if it is longer, the call reads past the end of the array
-- of the line.
pub on_log-Logged_line :
    (s : FileSink) (timestamp_ns : ℕ) (lvl : LogLevel) (content : List ℕ)
    → s.opened ≡ true
    → length s.pending ≤ buffer_capacity
    → timestamp_ns < 2 ^ 64
    → IsLoggable content
    → Logged s timestamp_ns lvl content (on_log true s timestamp_ns lvl content)
on_log-Logged_line s timestamp_ns lvl content live bounded small loggable = (
  json_line timestamp_ns lvl content,
  json_line-Object timestamp_ns lvl content small loggable,
  elim (Bool-cases (ltb max_json_line_size (length (json_line timestamp_ns lvl content)))) [
    | inl long ↦
        let past : max_json_line_size < length (json_line timestamp_ns lvl content) =
          ground (arith, long) in
        inr (past, on_log_overlong s timestamp_ns lvl content live past)
    | inr short ↦
        let fits : length (json_line timestamp_ns lvl content) ≤ max_json_line_size =
          ground (arith, short) in
        inl (fits, on_log-Stored s timestamp_ns lvl content live bounded fits)
  ],
)
