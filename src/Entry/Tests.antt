-- ===== src/Entry/Tests.antt =====
-- Runs of include/femtolog/base/log_entry.h.
use femtolog.Prelude.{[], ◌∷◌, none, ◌≡◌, refl, replicate}
use femtolog.Level.{LogLevel}
use femtolog.Entry.{LogEntry, create}

abbrev pub hello_entry : LogEntry
hello_entry = record {
  payload_len = 2;
  format_id = 0xffff;
  thread_id = 1;
  timestamp_ns = 0;
  level = LogLevel.info;
}

created : create (replicate 24 9) 1 0xffff LogLevel.info 0 (104 ∷ []) ≡ none
unfolding create
created = refl
