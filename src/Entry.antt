-- ===== src/Entry.antt =====
-- include/femtolog/base/log_entry.h: the header of a log entry and its bytes in memory, on a
-- little-endian machine with 8-byte alignment (`sizeof(LogEntry)` is 24). The payload follows.
pub mod Codec
pub mod Tests
use femtolog.Prelude.{
  ℕ, zero, suc, ◌+◌, ◌*◌, ◌/◌, ◌%◌, List, [], ◌∷◌, ◌++◌, Option, none, some, min, length, take,
  drop, get_or, leb, if◌then◌else◌,
}
use femtolog.Word.{u16}
use femtolog.Level.{LogLevel, value, level_of}

pub record LogEntry : Type 0 where
  pub payload_len : ℕ
  pub format_id : ℕ
  pub thread_id : ℕ
  pub timestamp_ns : ℕ
  pub level : LogLevel

-- `sizeof(LogEntry)`
abbrev pub entry_size : ℕ
entry_size = 24

-- The `k` bytes of an unsigned integer, lowest first, and the integer of some bytes.
unfoldable pub to_bytes : ℕ → ℕ → List ℕ
to_bytes zero n = []
to_bytes (suc k) n = n % 256 ∷ to_bytes k (n / 256)

unfoldable pub of_bytes : List ℕ → ℕ
of_bytes [] = 0
of_bytes (b ∷ bytes) = b + 256 * of_bytes bytes

-- The object's bytes: the fields in the order of their declaration, each aligned to its size, as the
-- x86-64 ABI lays the struct out. The last seven are padding, which nothing writes.
unfoldable pub header_bytes : LogEntry → List ℕ → List ℕ
unfolding to_bytes
header_bytes e padding =
    to_bytes 2 e.payload_len
    ++ (to_bytes 2 e.format_id
        ++ (to_bytes 4 e.thread_id ++ (to_bytes 8 e.timestamp_ns ++ (value e.level ∷ padding))))

-- The fields of the object that `reinterpret_cast<LogEntry*>` sees at the start of some bytes, in the
-- same layout.
unfoldable pub header_at : List ℕ → LogEntry
unfolding of_bytes level_of
header_at bytes = record {
  payload_len = of_bytes (take 2 bytes);
  format_id = of_bytes (take 2 (drop 2 bytes));
  thread_id = of_bytes (take 4 (drop 4 bytes));
  timestamp_ns = of_bytes (take 8 (drop 8 bytes));
  level = level_of (get_or bytes 16 0);
}

-- `LogEntry::create` over a buffer: the fields, then the payload by `std::memcpy`, which is a fault
-- if it would leave the buffer.
unfoldable pub create : List ℕ → ℕ → ℕ → LogLevel → ℕ → List ℕ → Option (List ℕ)
unfolding header_bytes
create buffer thread_id format_id level timestamp_ns payload =
    if leb (entry_size + length payload) (length buffer)
    then some (
        header_bytes
          (record {
            payload_len = u16 (length payload);
            format_id = format_id;
            thread_id = thread_id;
            timestamp_ns = timestamp_ns;
            level = level;
          })
          (take 7 (drop 17 buffer))
        ++ (payload ++ drop (entry_size + length payload) buffer))
    else none

-- `total_size`
abbrev pub total_size : LogEntry → ℕ
total_size e = entry_size + e.payload_len

-- `copy_raw_payload`: what it writes at `dst_buf`, and the size that it returns.
unfoldable pub copy_raw_payload : LogEntry → List ℕ → ℕ → List ℕ × ℕ
copy_raw_payload e payload dst_size =
    (take (min dst_size e.payload_len) payload, min dst_size e.payload_len)
