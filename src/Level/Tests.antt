-- ===== src/Level/Tests.antt =====
-- Runs of include/femtolog/base/log_level.h.
use femtolog.Prelude.{◌≡◌, refl}
use femtolog.Level.{LogLevel, codes, log_level_from_string, cmpstr, level_len, level_ansi_len}

-- Only the prefix is compared, and case matters.
names :
    (log_level_from_string (codes "information") ≡ LogLevel.info)
    × (log_level_from_string (codes "INFO") ≡ LogLevel.unknown)
    × (log_level_from_string (codes "inf") ≡ LogLevel.unknown)
    × (level_len LogLevel.fatal ≡ 5)
    × (level_ansi_len LogLevel.fatal ≡ 5)
unfolding log_level_from_string cmpstr level_len level_ansi_len
names = (refl, refl, refl, refl, refl)
