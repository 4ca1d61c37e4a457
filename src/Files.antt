-- ===== src/Files.antt =====
-- src/core/base/file_util.cc and include/femtolog/core/base/file_util.h, as they are built on POSIX:
-- paths, lines, and the loops around the system's calls, whose answers are parameters. A string is
-- the list of its bytes.
pub mod Path
pub mod Lines
pub mod Search
pub mod Transfer
pub mod Directories
pub mod Tests
