-- ===== src/Sinks.antt =====
-- The sinks: include/femtolog/sinks/file_sink.h and include/femtolog/sinks/stdout_sink.h. A sink's
-- `written` is what it has handed to `write` on its file descriptor, in order, and `pending` the
-- first `cursor_` bytes of its buffer. `none` is an access outside a buffer.
pub mod File
pub mod JsonLines
pub mod Rotation
pub mod Stdout
pub mod Tests
