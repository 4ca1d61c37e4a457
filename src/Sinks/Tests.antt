-- ===== src/Sinks/Tests.antt =====
-- Runs of the sinks, and instances of the theorems.
use femtolog.Prelude.{
  ℕ, List, ◌∷◌, ◌++◌, Bool, leb, length, ◌+◌, [], none, ◌≡◌, refl, replicate, arith, true, false,
  inl, inr,
}
use femtolog.Level.{LogLevel, codes, level_len, log_level_to_lower_str}
use femtolog.Strings.Escape.{encode_escape}
use femtolog.Sinks.File
use femtolog.Sinks.File.{FileSink, IsOpen, Taken, line, on_log-Taken}
use femtolog.Sinks.JsonLines
use femtolog.Sinks.JsonLines.{quoted, json_line}
use femtolog.Sinks.JsonLines.Logged.{on_log-Logged_line}
use femtolog.Sinks.Rotation.{dest_path, archive_from, FirstFree, archive_from-FirstFree}
use femtolog.Sinks.Stdout
use femtolog.Sinks.Stdout.{StdoutSink, estimate_length, build_message}
use femtolog.Sinks.Stdout.Laws.{Logged, on_log-Logged, on_log_past_end}

abbrev file : FileSink
file = record { opened = true; pending = codes "a: b"; written = [] }

on_log-Taken_example :
    Taken file
      (line (codes "[12] ") LogLevel.info (codes "up"))
      (File.on_log file (codes "[12] ") LogLevel.info (codes "up"))
unfolding line log_level_to_lower_str
on_log-Taken_example =
    on_log-Taken file (codes "[12] ") LogLevel.info (codes "up")
      (record { opened = refl; bounded = omega arith }) (omega arith)

-- A file that could not be opened, after 4090 bytes.
abbrev unopened : FileSink
unopened = record { opened = false; pending = replicate 4090 97; written = [] }

abbrev terminal : StdoutSink
terminal = record { buffering = true; color = true; pending = []; written = [] }

on_log-Logged_example :
    Logged terminal
      (build_message true LogLevel.warn (codes "disk"))
      (Stdout.on_log terminal LogLevel.warn (codes "disk"))
unfolding estimate_length level_len log_level_to_lower_str
on_log-Logged_example =
    on_log-Logged terminal LogLevel.warn (codes "disk") refl (omega arith) (omega arith)
      (inl (omega arith))

-- 19 bytes of estimate behind 4077 bytes.
abbrev nearly_full : StdoutSink
nearly_full = record terminal { pending = replicate 4077 97 }

on_log_past_end_example : Stdout.on_log nearly_full LogLevel.error [] ≡ none
unfolding estimate_length level_len log_level_to_lower_str
on_log_past_end_example = on_log_past_end nearly_full [] refl refl (omega arith)

-- Every short name is taken.
abbrev taken_names : List ℕ → Bool
taken_names path = leb (length path) (length (codes "logs/app_T.log.gz") + 1)

archive_example :
    FirstFree taken_names
      (codes "logs/app.log")
      (codes "T")
      0
      (archive_from 3 taken_names (codes "logs/app.log") (codes "T") 0)
unfolding dest_path
archive_example = archive_from-FirstFree taken_names (codes "logs/app.log") (codes "T") 2 0 refl

-- Two lines of text.
on_log-Logged_line_example :
    JsonLines.Logged.Logged file 12 LogLevel.info
      (codes "up" ++ (10 ∷ codes "ok"))
      (JsonLines.on_log true file 12 LogLevel.info (codes "up" ++ (10 ∷ codes "ok")))
unfolding log_level_to_lower_str
on_log-Logged_line_example =
    on_log-Logged_line file 12 LogLevel.info (codes "up" ++ (10 ∷ codes "ok")) refl (omega arith)
      (omega arith)
      (
        (λ e. omega (arith, e), inl (omega arith)),
        (
          (λ e. omega (arith, e), inl (omega arith)),
          (
            (λ e. omega (arith, e), inr (inl refl)),
            (
              (λ e. omega (arith, e), inl (omega arith)),
              ((λ e. omega (arith, e), inl (omega arith)), tt),
            ),
          ),
        ),
      )

-- A message of 1000 line feeds is too long for the array of the line.
overlong_run : JsonLines.on_log true file 12 LogLevel.info (replicate 1000 10) ≡ none
unfolding JsonLines.on_log JsonLines.append_line JsonLines.read_array JsonLines.write_raw
    JsonLines.flush File.flush json_line JsonLines.decimal JsonLines.digits encode_escape
    log_level_to_lower_str
overlong_run = refl

json_line_run :
    json_line 12 LogLevel.info (codes "up")
    ≡ b'{'
      ∷ (quoted (codes "timestamp")
          ++ (codes ": 12, "
              ++ (quoted (codes "level")
                  ++ (codes ": "
                      ++ (quoted (codes "info")
                          ++ (codes ", "
                              ++ (quoted (codes "message")
                                  ++ (codes ": "
                                      ++ (quoted (codes "up") ++ (b'}' ∷ 10 ∷ []))))))))))
unfolding json_line
json_line_run = refl
