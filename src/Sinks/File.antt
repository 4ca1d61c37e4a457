-- ===== src/Sinks/File.antt =====
-- `FileSink` of include/femtolog/sinks/file_sink.h. The text of the timestamp, which `localtime_r` and
-- {fmt} make, comes with each call.
use femtolog.Prelude.{
  ℕ, ◌+◌, ◌≤◌, List, [], ◌∷◌, ◌++◌, Option, none, some, Bool, true, false, ◌≡◌, refl, sym, ap, ◌∙◌,
  subst, ◌==◌, ltb, leb, le→leb, if◌then◌else◌, Bool-cases, inl, inr, length, arith, append-nil,
  append_assoc, length-append,
}
use femtolog.Level.{LogLevel, log_level_to_lower_str}

-- `kBufferCapacity` and `kSep`
abbrev pub buffer_capacity : ℕ
buffer_capacity = 4096

abbrev pub sep : List ℕ
sep = 58 ∷ 32 ∷ []

-- `opened` is `fd_ >= 0`; the buffer is there from the constructor on.
pub record FileSink : Type 0 where
  pub opened : Bool
  pub pending : List ℕ
  pub written : List ℕ

unfoldable pub flush : FileSink → FileSink
flush s =
    if length s.pending == 0
    then s
    else (if s.opened then record s { written = s.written ++ s.pending; pending = [] } else s)

-- One line: the four pieces that are copied one behind the other.
unfoldable pub line : List ℕ → LogLevel → List ℕ → List ℕ
unfolding log_level_to_lower_str
line timestamp lvl content = timestamp ++ (log_level_to_lower_str lvl ++ (sep ++ content))

-- The copies into the buffer.
unfoldable pub append_line : FileSink → List ℕ → Option FileSink
append_line s bytes =
    if leb (length s.pending + length bytes) buffer_capacity
    then some (record s { pending = s.pending ++ bytes })
    else none

-- `write_direct` fills four elements of an array of three.
unfoldable pub write_direct : FileSink → List ℕ → Option FileSink
write_direct s bytes = if s.opened then none else some s

unfoldable pub on_log : FileSink → List ℕ → LogLevel → List ℕ → Option FileSink
unfolding flush line append_line write_direct
on_log s timestamp lvl content =
    let bytes = line timestamp lvl content in
    let s' = if ltb buffer_capacity (length s.pending + length bytes) then flush s else s in
    if ltb buffer_capacity (length bytes) then write_direct s' bytes else append_line s' bytes

-- The destructor, up to the close.
unfoldable pub close_sink : FileSink → FileSink
unfolding flush
close_sink s = flush s

-- Everything that the sink has taken, in order.
abbrev pub stream : FileSink → List ℕ
stream s = s.written ++ s.pending

-- A sink on an open file whose buffer is not overfull.
pub record IsOpen (s : FileSink) : Type 0 where
  pub opened : s.opened ≡ true
  pub bounded : length s.pending ≤ buffer_capacity

-- What `flush` leaves of a sink on an open file.
pub record Flushed (s s' : FileSink) : Type 0 where
  pub opened : s'.opened ≡ true
  pub emptied : s'.pending ≡ []
  pub taken : stream s' ≡ stream s

pub flush-Flushed : (s : FileSink) → s.opened ≡ true → Flushed s (flush s)
unfolding flush
flush-Flushed s live = elim (Bool-cases (length s.pending == 0)) [
  | inl empty ↦
      subst (Flushed s) (sym (ap (λ b. if b then s else published) empty))
        (record { opened = live; emptied = no_bytes s.pending empty; taken = refl })
  | inr full ↦
      subst (Flushed s)
        (sym (ap (λ b. if b then s else published) full ∙ ap (λ b. if b then sent else s) live))
        (record { opened = live; emptied = refl; taken = append-nil (s.written ++ s.pending) })
]
  where
    sent : FileSink
    sent = record s { written = s.written ++ s.pending; pending = [] }

    published : FileSink
    published = if s.opened then sent else s

    no_bytes : (bytes : List ℕ) → (length bytes == 0) ≡ true → bytes ≡ []
    no_bytes [] e = refl
    no_bytes (b ∷ bytes) e = ground (arith, e)

-- What a call of `on_log` with the line `bytes` leaves.
pub Taken : FileSink → List ℕ → Option FileSink → Type 0
Taken s bytes result =
    (s' : FileSink) × (result ≡ some s') × IsOpen s' × (stream s' ≡ stream s ++ bytes)

append_line-Taken :
    (s : FileSink) (bytes : List ℕ)
    → s.opened ≡ true
    → length s.pending + length bytes ≤ buffer_capacity
    → Taken s bytes (append_line s bytes)
unfolding append_line Taken
append_line-Taken s bytes live room = (
  record s { pending = s.pending ++ bytes },
  rw (le→leb _ _ room) refl,
  record { opened = live; bounded = omega (arith, room, length-append s.pending bytes) },
  sym (append_assoc s.written s.pending bytes),
)

-- On an open file with a buffer that is not overfull, a line that fits the buffer is taken whole:
-- behind everything that was taken before, no byte lost or out of order, with no copy past the
-- buffer.
pub on_log-Taken :
    (s : FileSink) (timestamp : List ℕ) (lvl : LogLevel) (content : List ℕ)
    → IsOpen s
    → length (line timestamp lvl content) ≤ buffer_capacity
    → Taken s (line timestamp lvl content) (on_log s timestamp lvl content)
unfolding on_log Taken
on_log-Taken s timestamp lvl content ready fits =
    rw short
      (elim (Bool-cases
        (ltb buffer_capacity (length s.pending + length (line timestamp lvl content)))) [
          | inl overfull ↦ rw overfull (
              let done = flush-Flushed s ready.opened in
              let (s', e, ready', taken) =
                append_line-Taken (flush s) (line timestamp lvl content) done.opened
                  (omega (arith, fits, ap length done.emptied)) in
              (s', e, ready', taken ∙ ap (λ out. out ++ line timestamp lvl content) done.taken))
          | inr room ↦
              rw room (
                append_line-Taken s (line timestamp lvl content) ready.opened
                  (ground (arith, room)))
        ])
  where
    short : ltb buffer_capacity (length (line timestamp lvl content)) ≡ false
    short = ground (arith, fits)
