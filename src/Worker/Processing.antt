-- ===== src/Worker/Processing.antt =====
-- The worker reads back the entries of the queue, one by one and in order.
mod Frames
mod Drain
pub mod Formatted
unfoldable pub use Frames.*
unfoldable pub use Drain.*
unfoldable pub use Formatted.*
