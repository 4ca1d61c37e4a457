-- ===== src/Sinks/JsonLines.antt =====
-- `JsonLinesSink` of include/femtolog/sinks/json_lines_sink.h: one JSON object for each message. The
-- buffer and its `flush` are as in `FileSink`, with another capacity.
pub mod Grammar
pub mod Line
pub mod Logged
use femtolog.Prelude.{
  ℕ, zero, suc, ◌+◌, ◌/◌, ◌%◌, ◌≤◌, List, [], ◌∷◌, ◌++◌, Option, none, some, ◌>>=◌, Bool, true,
  false, ◌≡◌, refl, sym, ap, ◌∙◌, length, ltb, leb, ◌==◌, if◌then◌else◌, arith, Bool-cases, inl,
  inr, le→leb, append_assoc, length-append,
}
use femtolog.Level.{LogLevel, log_level_to_lower_str, codes}
use femtolog.Strings.Escape.{encode_escape}
use femtolog.Sinks.File
use femtolog.Sinks.File.{FileSink, stream, Flushed, flush-Flushed}

-- `kBufferCapacity` and `kMaxJsonLineSize`
abbrev pub buffer_capacity : ℕ
buffer_capacity = 8192

abbrev pub max_json_line_size : ℕ
max_json_line_size = 2048

abbrev pub quote : ℕ
quote = 34

-- The decimal digits of a number, as {fmt} prints it; 20 are enough for 64 bits.
unfoldable pub digits : ℕ → ℕ → List ℕ
digits zero n = []
digits (suc fuel) n =
    let front = digits fuel (n / 10) in
    if n / 10 == 0 then (48 + n % 10) ∷ [] else front ++ ((48 + n % 10) ∷ [])

unfoldable pub decimal : ℕ → List ℕ
unfolding digits
decimal n = digits 20 n

abbrev pub quoted : List ℕ → List ℕ
quoted s = quote ∷ (s ++ (quote ∷ []))

-- What the format string of `on_log` makes of its three arguments: all of it, `result.size` bytes, of
-- which the array `line` takes the first 2048, as `read_array` has it.
unfoldable pub json_line : ℕ → LogLevel → List ℕ → List ℕ
unfolding decimal log_level_to_lower_str encode_escape
json_line timestamp_ns lvl content =
    b'{'
    ∷ (quoted (codes "timestamp")
        ++ (codes ": "
            ++ (decimal timestamp_ns
                ++ (codes ", "
                    ++ (quoted (codes "level")
                        ++ (codes ": "
                            ++ (quoted (log_level_to_lower_str lvl)
                                ++ (codes ", "
                                    ++ (quoted (codes "message")
                                        ++ (codes ": "
                                            ++ (quoted (encode_escape content)
                                                ++ (b'}' ∷ 10 ∷ []))))))))))))

-- The first `line_len` bytes of the array `line`, into which `format_to_n` has put a text of as many
-- bytes, up to the array's size; with a longer text this reads past the array.
unfoldable pub read_array : List ℕ → Option (List ℕ)
read_array bytes = if leb (length bytes) max_json_line_size then some bytes else none

unfoldable pub write_raw : FileSink → List ℕ → Option FileSink
unfolding read_array
write_raw s bytes =
    if s.opened
    then (read_array bytes >>= λ sent. some (record s { written = s.written ++ sent }))
    else some s

unfoldable pub flush : FileSink → FileSink
unfolding File.flush
flush s = File.flush s

-- The copy behind the cursor.
unfoldable pub append_line : FileSink → List ℕ → Option FileSink
unfolding read_array
append_line s bytes = read_array bytes >>= λ taken.
    if leb (length s.pending + length taken) buffer_capacity
    then some (record s { pending = s.pending ++ taken })
    else none

unfoldable pub on_log : Bool → FileSink → ℕ → LogLevel → List ℕ → Option FileSink
unfolding json_line write_raw flush append_line
on_log enable_buffering s timestamp_ns lvl content =
    let bytes = json_line timestamp_ns lvl content in
    let s' : FileSink =
      if ltb buffer_capacity (length s.pending + length bytes) then flush s else s in
    if enable_buffering
    then (if ltb buffer_capacity (length bytes) then write_raw s' bytes else append_line s' bytes)
    else write_raw s bytes

append_line-stream :
    (s : FileSink) (bytes : List ℕ)
    → length bytes ≤ max_json_line_size
    → length s.pending + length bytes ≤ buffer_capacity
    → append_line s bytes ≡ some (record s { pending = s.pending ++ bytes })
unfolding append_line read_array
append_line-stream s bytes short room = rw (le→leb _ _ short) (rw (le→leb _ _ room) refl)

-- What a buffered sink on an open file is after a call with the line `bytes`.
abbrev pub Stored : FileSink → List ℕ → Option FileSink → Type 0
Stored s bytes result =
    (s' : FileSink) × (result ≡ some s')
    × (s'.opened ≡ true)
    × (length s'.pending ≤ buffer_capacity)
    × (stream s' ≡ stream s ++ bytes)

stored :
    (s t : FileSink) (bytes : List ℕ)
    → length bytes ≤ max_json_line_size
    → t.opened ≡ true
    → length t.pending + length bytes ≤ buffer_capacity
    → stream t ≡ stream s
    → Stored s bytes (append_line t bytes)
stored s t bytes short live room same = (
  record t { pending = t.pending ++ bytes },
  append_line-stream t bytes short room,
  live,
  omega (arith, room, length-append t.pending bytes),
  sym (append_assoc t.written t.pending bytes) ∙ ap (λ front. front ++ bytes) same,
)

-- A buffered sink on an open file whose buffer is not overfull takes a line of `kMaxJsonLineSize` bytes
-- at most whole: behind everything taken before, with no copy past the buffer or the array of the line.
pub on_log-Stored :
    (s : FileSink) (timestamp_ns : ℕ) (lvl : LogLevel) (content : List ℕ)
    → s.opened ≡ true
    → length s.pending ≤ buffer_capacity
    → length (json_line timestamp_ns lvl content) ≤ max_json_line_size
    → Stored s (json_line timestamp_ns lvl content) (on_log true s timestamp_ns lvl content)
unfolding on_log flush
on_log-Stored s timestamp_ns lvl content live bounded short =
    rw fits
      (elim (Bool-cases
        (ltb buffer_capacity (length s.pending + length (json_line timestamp_ns lvl content)))) [
          | inl overfull ↦ rw overfull (
              let done = flush-Flushed s live in
              stored s (File.flush s) (json_line timestamp_ns lvl content) short done.opened
                (omega (arith, short, ap length done.emptied)) done.taken)
          | inr room ↦ rw room (
              stored s s (json_line timestamp_ns lvl content) short live (ground (arith, room))
                refl)
        ])
  where
    fits : ltb buffer_capacity (length (json_line timestamp_ns lvl content)) ≡ false
    fits = ground (arith, short)
