-- ===== src/Lib.antt =====
-- femtolog is a logging library in C++. A frontend thread serializes log calls into byte entries and
-- puts them into a single-producer single-consumer ring buffer; a backend thread takes the entries
-- out, formats them and hands them to sinks. This development models the program's core and proves
-- that what the frontend accepts is what the sinks receive, in order.
--
-- The parts, the paths being those of the repository:
--
--   Spsc        src/include/femtolog/logging/impl/spsc_queue.h, src/logging/impl/spsc_queue.cc
--   Spmc        src/include/femtolog/logging/impl/spmc_queue.h, src/logging/impl/spmc_queue.cc
--   Ring        the copies in and out of the ring with wrap-around, which the operations share
--   Memory      src/include/femtolog/core/base/memory_util.h
--   Level       src/include/femtolog/base/log_level.h
--   Entry       src/include/femtolog/base/log_entry.h
--   Worker      src/include/femtolog/logging/impl/backend_worker.h, src/logging/impl/backend_worker.cc
--   Logger      src/include/femtolog/logging/impl/internal_logger.h, src/logging/impl/internal_logger.cc,
--               and the level by name of src/include/femtolog/logger.h
--   Args        src/include/femtolog/logging/impl/args_serializer.h, args_deserializer.h beside it,
--               and src/include/femtolog/base/serialize_util.h
--   Registry    src/include/femtolog/base/string_registry.h
--   Sinks       src/include/femtolog/sinks/file_sink.h, stdout_sink.h and json_lines_sink.h beside it
--   Files       src/core/base/file_util.cc, src/include/femtolog/core/base/file_util.h
--   Strings     src/core/base/string_util.cc, src/include/femtolog/core/base/string_util.h
--   Prelude     Boolean tests, lists and options over the native numbers
--   Word        machine words: every sum and difference is written with its wrap-around
--
-- How they interact: `Logger.log` filters by level and worker status, `Entry.create` lays the entry
-- out in the logger's buffer, `Spsc.enqueue_bytes` copies it into the ring; `Worker.flush_impl` peeks
-- at the first two bytes of an entry (its payload length), takes the whole entry off, and hands it to
-- the sinks. `Worker.Lifecycle` has the thread that does so, turn by turn, with `flush` and `stop`.
-- `Spsc.Invariant.Represents` says which sequence of bytes a queue object stands for, and
-- `Logger.View.Stands` which entries and counters a logger stands for; each operation is shown to
-- refine the one of `Spsc.Fifo` or `Logger.View`. Data members keep their names without the underscore.
-- `Spsc.Interleaved` cuts `enqueue_bytes` and `dequeue_bytes` into their accesses to shared memory, as a
-- step relation of the two threads, and `Interleaved.Delivery.Inv` is its invariant.
-- `Spmc.Concurrent` cuts `enqueue_bytes` and `dequeue_bytes` of the queue for several consumers into
-- their accesses to shared memory, as a step relation: `Delivery.Inv` is its invariant, and `Race` what
-- becomes of it when a consumer asks for more than is there. `Spmc.Alone` runs the calls one by one.
-- `Sinks.Rotation` puts the path functions of `Files` to use, as the constructors of the sinks do.
-- Outside descriptions the theorems measure the code against: `Strings.Utf8.CodePoints.encode` is the encoding of
-- RFC 3629, and `Sinks.JsonLines.Grammar` the part of the grammar of RFC 8259 that a log line uses.
-- `Entry` has the bytes of a struct in memory, which the code copies but never spells out: they are the
-- fields in the order of their declaration, aligned as the x86-64 ABI has it.
--
-- Conventions. Integers are natural numbers below the bound of their type. A result `none` is a fault:
-- an access outside a buffer, a shift by the width of the word, the end by `std::terminate` for a
-- thread that is assigned over, or in `Spmc` a wait that no other thread ends; a loop on fuel that runs out
-- of it gives `none` too. Debug assertions (FEMTOLOG_DCHECK) are not part of the code that runs.
-- The machine is little-endian with 64-bit words. Loops that are not bounded by their data run on
-- fuel: `flush_impl` takes one unit for each entry, and its theorem shows that one more than the
-- number of entries is enough; the loops of `Files` take a byte at least in each round, so that one unit
-- more than the length is enough; `Sinks.Rotation` takes one for each name that is tried.
--
-- The system's part enters as parameters: `Memory.Allocator` is `posix_memalign`, with the promise
-- that a block which it hands out has the size asked for; `Worker.Environment` is the clock, the text
-- that {fmt} makes of the arguments, and the capacity of its buffer, with no promise at all. In `Files`
-- `Writer`, `Reader` and `Gzip` answer `write`, `read`, `fread` and `gzwrite`, with the promise that they
-- move no more bytes than they are given, or than the file has; `Tree` answers `mkdir` and `dir_exists`,
-- with the promise that a directory which was made is there and that no directory goes away.
--
-- Not modelled: the memory orderings (the interleavings are those of sequential consistency); the bulk
-- operations and peeks under interleaving; the worker's loop and the logger beside each other, which take
-- turns here; the plain wrappers of one system call in the file utilities; the diagnostics, which only
-- call the system, and the check macros.
pub mod Args
pub mod Entry
pub mod Files
pub mod Level
pub mod Logger
pub mod Memory
pub mod Prelude
pub mod Registry
pub mod Ring
pub mod Sinks
pub mod Spmc
pub mod Spsc
pub mod Strings
pub mod Word
pub mod Worker
