-- ===== src/Level.antt =====
-- include/femtolog/base/log_level.h: the levels, their names and colours, and the parser of names.
-- A C string is the list of its bytes before the terminating zero.
pub mod Names
pub mod Tests
use Prim.Native.Char.{code}
use Prim.Native.String
use Prim.Native.String.{String}
use femtolog.Prelude.{ℕ, List, [], ◌∷◌, Bool, true, false, ◌&&◌, length, ltb, ◌==◌, if◌then◌else◌}

-- `enum class LogLevel`
pub data LogLevel : Type 0 where
  raw fatal error warn info debug trace unknown : LogLevel

-- The value of the enumerator.
abbrev pub value : LogLevel → ℕ
value LogLevel.raw = 0
value LogLevel.fatal = 1
value LogLevel.error = 2
value LogLevel.warn = 3
value LogLevel.info = 4
value LogLevel.debug = 5
value LogLevel.trace = 6
value LogLevel.unknown = 8

-- The level that a stored byte is read as: every `switch` treats another value as `kUnknown`.
unfoldable pub level_of : ℕ → LogLevel
level_of v =
    if v == 0
    then LogLevel.raw
    else (if v == 1
        then LogLevel.fatal
        else (if v == 2
            then LogLevel.error
            else (if v == 3
                then LogLevel.warn
                else (if v == 4
                    then LogLevel.info
                    else (if v == 5
                        then LogLevel.debug
                        else (if v == 6 then LogLevel.trace else LogLevel.unknown))))))

-- The bytes of a literal.
abbrev pub codes : String → List ℕ
codes String.[] = []
codes (String.◌∷◌ c s) = code c ∷ codes s

unfoldable pub log_level_to_lower_str : LogLevel → List ℕ
log_level_to_lower_str LogLevel.raw = codes "raw"
log_level_to_lower_str LogLevel.fatal = codes "fatal"
log_level_to_lower_str LogLevel.error = codes "error"
log_level_to_lower_str LogLevel.warn = codes "warn"
log_level_to_lower_str LogLevel.info = codes "info"
log_level_to_lower_str LogLevel.debug = codes "debug"
log_level_to_lower_str LogLevel.trace = codes "trace"
log_level_to_lower_str LogLevel.unknown = codes "unknown"

unfoldable pub log_level_to_upper_str : LogLevel → List ℕ
log_level_to_upper_str LogLevel.raw = codes "RAW"
log_level_to_upper_str LogLevel.fatal = codes "FATAL"
log_level_to_upper_str LogLevel.error = codes "ERROR"
log_level_to_upper_str LogLevel.warn = codes "WARN"
log_level_to_upper_str LogLevel.info = codes "INFO"
log_level_to_upper_str LogLevel.debug = codes "DEBUG"
log_level_to_upper_str LogLevel.trace = codes "TRACE"
log_level_to_upper_str LogLevel.unknown = codes "UNKNOWN"

-- The escape sequences of include/femtolog/core/base/string_util.h: `ESC [ … m`.
abbrev pub ansi : String → List ℕ
ansi s = 27 ∷ codes s

unfoldable pub log_level_to_ansi_color : LogLevel → List ℕ
log_level_to_ansi_color LogLevel.raw = ansi "[0m"
log_level_to_ansi_color LogLevel.fatal = ansi "[35m"
log_level_to_ansi_color LogLevel.error = ansi "[31m"
log_level_to_ansi_color LogLevel.warn = ansi "[33m"
log_level_to_ansi_color LogLevel.info = ansi "[32m"
log_level_to_ansi_color LogLevel.debug = ansi "[36m"
log_level_to_ansi_color LogLevel.trace = ansi "[90m"
log_level_to_ansi_color LogLevel.unknown = []

-- `cmpstr(a, b)` compares the first `strlen(b)` bytes of `a`, its terminator included, with `b`.
unfoldable pub cmpstr : List ℕ → List ℕ → Bool
cmpstr a [] = true
cmpstr [] (y ∷ b) = false
cmpstr (x ∷ a) (y ∷ b) = x == y && cmpstr a b

unfoldable pub log_level_from_string : List ℕ → LogLevel
log_level_from_string str =
    if cmpstr str (codes "raw")
    then LogLevel.raw
    else (if cmpstr str (codes "fatal")
        then LogLevel.fatal
        else (if cmpstr str (codes "error")
            then LogLevel.error
            else (if cmpstr str (codes "warn")
                then LogLevel.warn
                else (if cmpstr str (codes "info")
                    then LogLevel.info
                    else (if cmpstr str (codes "debug")
                        then LogLevel.debug
                        else (if cmpstr str (codes "trace")
                            then LogLevel.trace
                            else LogLevel.unknown))))))

unfoldable pub level_len : LogLevel → ℕ
unfolding log_level_to_lower_str
level_len lvl = length (log_level_to_lower_str lvl)

unfoldable pub level_ansi_len : LogLevel → ℕ
unfolding log_level_to_ansi_color
level_ansi_len lvl = length (log_level_to_ansi_color lvl)

-- `lvl > limit` on the enumerators' values.
abbrev pub above : LogLevel → LogLevel → Bool
above lvl limit = ltb (value limit) (value lvl)
