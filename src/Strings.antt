-- ===== src/Strings.antt =====
-- src/core/base/string_util.cc and include/femtolog/core/base/string_util.h. A string is the list of
-- its bytes; `char` is signed, so that a byte from 128 on is below every letter.
pub mod Case
pub mod Escape
pub mod Utf8
pub mod Brackets
pub mod Split
pub mod Tests
