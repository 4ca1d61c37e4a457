-- ===== src/Entry/Codec.antt =====
-- An entry's bytes are read back as its header and payload.
use femtolog.Prelude.{
  ℕ, zero, suc, ◌+◌, ◌/◌, ◌^◌, ◌<◌, List, ◌++◌, ◌≡◌, refl, sym, ap, length, take, drop, arith,
  take-eq_of_append,
}
use femtolog.Level.Names.{level_of-value}
use femtolog.Entry.{LogEntry, to_bytes, of_bytes, header_bytes, header_at}

pub length-to_bytes : (k n : ℕ) → length (to_bytes k n) ≡ k
unfolding to_bytes
length-to_bytes zero n = refl
length-to_bytes (suc k) n = ap suc (length-to_bytes k (n / 256))

-- The fields fit their types.
pub record IsValid (e : LogEntry) : Type 0 where
  pub payload_len : e.payload_len < 2 ^ 16
  pub format_id : e.format_id < 2 ^ 16
  pub thread_id : e.thread_id < 2 ^ 32
  pub timestamp_ns : e.timestamp_ns < 2 ^ 64

pub of_bytes-to_bytes2 : (n : ℕ) → n < 2 ^ 16 → of_bytes (to_bytes 2 n) ≡ n
unfolding of_bytes to_bytes
of_bytes-to_bytes2 n h = omega arith

of_bytes-to_bytes4 : (n : ℕ) → n < 2 ^ 32 → of_bytes (to_bytes 4 n) ≡ n
unfolding of_bytes to_bytes
of_bytes-to_bytes4 n h = omega arith

pub of_bytes-to_bytes8 : (n : ℕ) → n < 2 ^ 64 → of_bytes (to_bytes 8 n) ≡ n
unfolding of_bytes to_bytes
of_bytes-to_bytes8 n h = omega arith

-- The header that stands at the start of some bytes is the one that was written there.
pub header_at-header_bytes :
    (e : LogEntry) (padding rest : List ℕ)
    → IsValid e
    → header_at (header_bytes e padding ++ rest) ≡ e
unfolding header_at header_bytes to_bytes
header_at-header_bytes e padding rest v = λ i. record {
  payload_len = of_bytes-to_bytes2 e.payload_len v.payload_len i;
  format_id = of_bytes-to_bytes2 e.format_id v.format_id i;
  thread_id = of_bytes-to_bytes4 e.thread_id v.thread_id i;
  timestamp_ns = of_bytes-to_bytes8 e.timestamp_ns v.timestamp_ns i;
  level = level_of-value e.level i;
}

pub length-header_bytes :
    (e : LogEntry) (padding : List ℕ) → length (header_bytes e padding) ≡ 17 + length padding
unfolding header_bytes to_bytes
length-header_bytes e padding = omega arith

-- The first two bytes of an entry are its `payload_len`.
pub take_two-header_bytes :
    (e : LogEntry) (padding rest : List ℕ)
    → take 2 (header_bytes e padding ++ rest) ≡ to_bytes 2 e.payload_len
unfolding header_bytes to_bytes
take_two-header_bytes e padding rest = refl

-- The padding bytes stay readable behind the fields.
pub padding-header_bytes :
    (e : LogEntry) (padding rest : List ℕ)
    → length padding ≡ 7
    → take 7 (drop 17 (header_bytes e padding ++ rest)) ≡ padding
unfolding header_bytes to_bytes
padding-header_bytes e padding rest seven = sym (take-eq_of_append 7 padding rest seven refl)
