-- ===== src/Sinks/Stdout.antt =====
-- `StdoutSink` of include/femtolog/sinks/stdout_sink.h, with or without a buffer. Whether colours are
-- on (`is_color_enabled`) depends on the mode and on the terminal, and comes with the sink.
pub mod Laws
use femtolog.Prelude.{
  ℕ, ◌+◌, ◌≤◌, ◌<◌, List, [], ◌∷◌, ◌++◌, Option, none, some, Bool, true, false, ◌≡◌, ◌⊎◌, refl, sym,
  ap, ap₂, ◌∙◌, subst, ◌==◌, ltb, leb, le→leb, lt→ltb, if◌then◌else◌, Bool-cases, inl, inr, length,
  arith, append-nil, append_assoc, length-append,
}
use femtolog.Level.{LogLevel, log_level_to_lower_str, log_level_to_ansi_color, level_len, ansi}

abbrev pub buffer_capacity : ℕ
buffer_capacity = 4096

abbrev pub sep : List ℕ
sep = 58 ∷ 32 ∷ []

-- `kBold` and `kReset`
abbrev pub bold : List ℕ
bold = ansi "[1m"

abbrev pub reset : List ℕ
reset = ansi "[0m"

pub record StdoutSink : Type 0 where
  pub buffering : Bool
  pub color : Bool
  pub pending : List ℕ
  pub written : List ℕ

-- `estimate_length`: every style is taken to be four bytes long.
unfoldable pub estimate_length : Bool → LogLevel → ℕ → ℕ
unfolding level_len
estimate_length color lvl content_len = content_len + 2 + (if color then 12 else 0) + level_len lvl

-- What `build_message` writes in front of the content.
unfoldable pub prefix : Bool → LogLevel → List ℕ
unfolding log_level_to_ansi_color log_level_to_lower_str
prefix color LogLevel.raw = []
prefix color lvl =
    (if color then bold ++ log_level_to_ansi_color lvl else [])
    ++ (log_level_to_lower_str lvl ++ ((if color then reset else []) ++ sep))

unfoldable pub build_message : Bool → LogLevel → List ℕ → List ℕ
unfolding prefix
build_message color lvl content = prefix color lvl ++ content

unfoldable pub flush : StdoutSink → StdoutSink
flush s =
    if length s.pending == 0 then s else record s { written = s.written ++ s.pending; pending = [] }

-- `write_direct`, whose message must fit an array of `kBufferCapacity` bytes.
unfoldable pub write_direct : StdoutSink → LogLevel → List ℕ → Option StdoutSink
unfolding build_message
write_direct s lvl content =
    let message = build_message s.color lvl content in
    if leb (length message) buffer_capacity
    then some (record s { written = s.written ++ message })
    else none

-- The message at the cursor.
unfoldable pub append_message : StdoutSink → LogLevel → List ℕ → Option StdoutSink
unfolding build_message
append_message s lvl content =
    let message = build_message s.color lvl content in
    if leb (length s.pending + length message) buffer_capacity
    then some (record s { pending = s.pending ++ message })
    else none

unfoldable pub log_buffered : StdoutSink → LogLevel → List ℕ → Option StdoutSink
unfolding estimate_length flush write_direct append_message
log_buffered s lvl content =
    let total_len = estimate_length s.color lvl (length content) in
    let s' = if ltb buffer_capacity (length s.pending + total_len) then flush s else s in
    if ltb buffer_capacity total_len
    then write_direct s' lvl content
    else append_message s' lvl content

unfoldable pub on_log : StdoutSink → LogLevel → List ℕ → Option StdoutSink
unfolding log_buffered write_direct
on_log s lvl content =
    if s.buffering then log_buffered s lvl content else write_direct s lvl content
