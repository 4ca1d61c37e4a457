-- ===== src/Level/Names.antt =====
-- Printing and parsing of level names.
use femtolog.Prelude.{ℕ, ◌<◌, List, ◌++◌, ◌≡◌, refl, arith}
use femtolog.Level.{
  LogLevel, value, level_of, log_level_to_lower_str, log_level_from_string, cmpstr,
}

-- A stored level is read back as itself.
pub level_of-value : (lvl : LogLevel) → level_of (value lvl) ≡ lvl
unfolding level_of
level_of-value LogLevel.raw = refl
level_of-value LogLevel.fatal = refl
level_of-value LogLevel.error = refl
level_of-value LogLevel.warn = refl
level_of-value LogLevel.info = refl
level_of-value LogLevel.debug = refl
level_of-value LogLevel.trace = refl
level_of-value LogLevel.unknown = refl

pub value-lt : (lvl : LogLevel) → value lvl < 256
value-lt LogLevel.raw = omega arith
value-lt LogLevel.fatal = omega arith
value-lt LogLevel.error = omega arith
value-lt LogLevel.warn = omega arith
value-lt LogLevel.info = omega arith
value-lt LogLevel.debug = omega arith
value-lt LogLevel.trace = omega arith
value-lt LogLevel.unknown = omega arith

-- `log_level_from_string` reads the lower-case name of every level back, whatever stands behind the
-- name: only a prefix is compared.
pub from_string-to_lower_str :
    (lvl : LogLevel) (rest : List ℕ)
    → log_level_from_string (log_level_to_lower_str lvl ++ rest) ≡ lvl
unfolding log_level_from_string log_level_to_lower_str cmpstr
from_string-to_lower_str LogLevel.raw rest = refl
from_string-to_lower_str LogLevel.fatal rest = refl
from_string-to_lower_str LogLevel.error rest = refl
from_string-to_lower_str LogLevel.warn rest = refl
from_string-to_lower_str LogLevel.info rest = refl
from_string-to_lower_str LogLevel.debug rest = refl
from_string-to_lower_str LogLevel.trace rest = refl
from_string-to_lower_str LogLevel.unknown rest = refl
