-- ===== src/Files/Transfer.antt =====
-- `read_file`, `write_file`, `write_binary_to_file` and `compress` of src/core/base/file_util.cc: loops
-- around calls that may take fewer bytes than they are given. The answers of those calls are
-- parameters, with what the manual promises of them.
pub mod Write
pub mod Read
pub mod Compress
pub mod Temp
use femtolog.Prelude.{
  ℕ, zero, suc, ◌+◌, ◌-◌, ◌≤◌, List, [], ◌++◌, Option, none, some, Bool, true, false, ◌≡◌, length,
  take, drop, ltb, ◌==◌, if◌then◌else◌,
}

-- The results 0 and -1.
pub data Code : Type 0 where
  success : Code
  failure : Code

-- `write(fd, p, n)` at an offset of the file: the number of bytes taken, or `none` for -1.
pub record Writer : Type 0 where
  pub write : ℕ → ℕ → Option ℕ
  pub at_most : (offset n k : ℕ) → write offset n ≡ some k → k ≤ n

-- `read(fd, p, n)` at an offset of a file with the given bytes.
pub record Reader (file : List ℕ) : Type 0 where
  pub read : ℕ → ℕ → Option ℕ
  pub at_most : (offset n k : ℕ) → read offset n ≡ some k → k ≤ n
  pub in_file : (offset n k : ℕ) → read offset n ≡ some k → k ≤ length file - offset

-- One round of a loop, by its test.
abbrev pub round_of {ℓ} : {R : Type ℓ} → Bool → R → R → R
round_of more last next = elim more [ false ↦ last | true ↦ next ]

-- What follows a call of `write` in the loop, by its answer; `next` is the next round.
abbrev pub after_write :
    (ℕ → List ℕ → Option (Code × List ℕ)) → List ℕ → ℕ → List ℕ → Option ℕ → Option (Code × List ℕ)
after_write next content total_written file none = some (failure, file)
after_write next content total_written file (some zero) = some (failure, file)
after_write next content total_written file (some (suc bytes)) =
    next (total_written + suc bytes) (file ++ take (suc bytes) (drop total_written content))

-- The loop of `write_file`, with the bytes that the file has by then; `none` is out of fuel.
unfoldable pub write_loop : ℕ → Writer → List ℕ → ℕ → List ℕ → Option (Code × List ℕ)
write_loop zero w content total_written file = none
write_loop (suc fuel) w content total_written file = elim (ltb total_written (length content)) [
  | false ↦ some (success, file)
  | true ↦
      after_write (write_loop fuel w content) content total_written file
        (w.write total_written (length content - total_written))
]

-- `write_file`, with what it leaves in the file; `open` empties the file, or fails and leaves it.
-- Each round writes a byte at least.
unfoldable pub write_file : Option Writer → List ℕ → List ℕ → Option (Code × List ℕ)
unfolding write_loop
write_file none old content = some (failure, old)
write_file (some w) old content = write_loop (suc (length content)) w content 0 []

abbrev pub after_read :
    (ℕ → List ℕ → Option (List ℕ)) → List ℕ → ℕ → List ℕ → Option ℕ → Option (List ℕ)
after_read next file total_read contents none = some contents
after_read next file total_read contents (some zero) = some contents
after_read next file total_read contents (some (suc bytes)) =
    next (total_read + suc bytes) (contents ++ take (suc bytes) (drop total_read file))

-- The loop of `read_file`. The last `resize` leaves the bytes read so far.
unfoldable pub read_loop : ℕ → (file : List ℕ) → Reader file → ℕ → ℕ → List ℕ → Option (List ℕ)
read_loop zero file r st_size total_read contents = none
read_loop (suc fuel) file r st_size total_read contents = elim (ltb total_read st_size) [
  | false ↦ some contents
  | true ↦
      after_read (read_loop fuel file r st_size) file total_read contents
        (r.read total_read (st_size - total_read))
]

-- A file that `open` opens, what `fstat` says of its size, and the answers of `read`.
pub record Opened : Type 0 where
  pub file : List ℕ
  pub st_size : Option ℕ
  pub reader : Reader file

unfoldable pub read_sized : (file : List ℕ) → Reader file → Option ℕ → Option (List ℕ)
unfolding read_loop
read_sized file r none = some []
read_sized file r (some st_size) = read_loop (suc st_size) file r st_size 0 []

unfoldable pub read_file : Option Opened → Option (List ℕ)
unfolding read_sized
read_file none = some []
read_file (some f) = read_sized f.file f.reader f.st_size

-- `write_binary_to_file`, by the null pointer, the opened file and the count that `fwrite` returns.
unfoldable pub write_binary_to_file : Bool → Bool → ℕ → ℕ → ℕ
write_binary_to_file has_data fopen_succeeds binary_size written =
    if has_data
    then (if binary_size == 0
        then 4
        else (if fopen_succeeds then (if written == binary_size then 0 else 1) else 2))
    else 4
