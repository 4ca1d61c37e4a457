-- ===== src/Worker/Processing/Formatted.antt =====
-- An entry with serialized arguments, from the bytes of the queue to the sinks.
use femtolog.Prelude.{ℕ, ◌<◌, List, [], ◌∷◌, ◌++◌, ◌≡◌, ◌⊎◌, map, length, take}
use femtolog.Spsc.{Spsc}
use femtolog.Entry.{LogEntry, to_bytes}
use femtolog.Worker.{Worker, Environment, Delivery}

-- The payload of an entry with arguments: the addresses of its two functions, then the arguments.
abbrev pub args_payload : ℕ → ℕ → List ℕ → List ℕ
args_payload format_func deserialize_func args =
    to_bytes 8 format_func ++ (to_bytes 8 deserialize_func ++ args)

-- The call of `on_log` for a text, of which the format buffer takes what fits.
abbrev pub text_delivery : Environment → Worker → LogEntry → List ℕ → Delivery
text_delivery env w entry text = record {
  entry = record entry { timestamp_ns = env.clock w.clock_reads };
  content = take w.format_capacity text;
  len = length text;
}

-- What the sinks hold after an entry with arguments.
abbrev pub Served : Environment → Worker → LogEntry → ℕ → ℕ → List ℕ → List (List Delivery) → Type 0
Served env w entry format_func deserialize_func args sinks =
    ((0 < format_func)
      × (0 < deserialize_func)
      × (sinks
          ≡ map
              (λ calls.
                calls
                ++ (text_delivery env w entry (env.formatted format_func deserialize_func args)
                    ∷ []))
              w.sinks))
    ⊎ (((format_func ≡ 0) ⊎ (deserialize_func ≡ 0)) × (sinks ≡ w.sinks))
