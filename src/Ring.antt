-- ===== src/Ring.antt =====
-- The ring memory of src/logging/impl/spsc_queue.cc and src/logging/impl/spmc_queue.cc: a byte
-- buffer addressed by free-running indices under a mask, and the copies in and out of it that go
-- round its end. A `std::memcpy` that would leave the buffer is the fault `none`.
pub mod Window
pub mod Copy
use femtolog.Prelude.{
  ℕ, zero, suc, ◌+◌, ◌-◌, List, [], ◌∷◌, ◌++◌, Option, none, some, ◌>>=◌, bit_and, length, get_or,
  set, take, drop, leb, if◌then◌else◌,
}
use femtolog.Word.{add_size, sub_size}

-- The bytes of `src` written one by one from index `pos` on.
store : List ℕ → ℕ → List ℕ → List ℕ
store mem pos [] = mem
store mem pos (b ∷ src) = store (set mem pos b) (pos + 1) src

load : List ℕ → ℕ → ℕ → List ℕ
load mem pos zero = []
load mem pos (suc n) = get_or mem pos 0 ∷ load mem (pos + 1) n

-- `std::memcpy(buffer_ + pos, src, n)`, with the `n` bytes at `src` as a list.
memcpy_in : List ℕ → ℕ → List ℕ → Option (List ℕ)
unfolding store
memcpy_in mem pos src =
    if leb (pos + length src) (length mem) then some (store mem pos src) else none

-- `std::memcpy(dst, buffer_ + pos, n)`, which yields what it writes at `dst`.
memcpy_out : List ℕ → ℕ → ℕ → Option (List ℕ)
unfolding load
memcpy_out mem pos n = if leb (pos + n) (length mem) then some (load mem pos n) else none

-- The masked position of index `idx`, and the bytes from there to the end of the buffer.
unfoldable pub position : ℕ → ℕ → ℕ
position mask idx = bit_and idx mask

unfoldable pub to_end : ℕ → ℕ → ℕ
unfolding position
to_end mask idx = sub_size (add_size mask 1) (position mask idx)

-- The copy of `enqueue_bytes`, in one piece or two.
unfoldable pub copy_in : List ℕ → ℕ → ℕ → List ℕ → Option (List ℕ)
unfolding memcpy_in
copy_in mem mask idx src =
    if leb (length src) (to_end mask idx)
    then memcpy_in mem (position mask idx) src
    else (memcpy_in mem (position mask idx) (take (to_end mask idx) src) >>= λ mem'.
        memcpy_in mem' 0 (drop (to_end mask idx) src))

-- The copy of `dequeue_bytes` and `peek_bytes`.
unfoldable pub copy_out : List ℕ → ℕ → ℕ → ℕ → Option (List ℕ)
unfolding memcpy_out
copy_out mem mask idx n =
    if leb n (to_end mask idx)
    then memcpy_out mem (position mask idx) n
    else (memcpy_out mem (position mask idx) (to_end mask idx) >>= λ front.
        memcpy_out mem 0 (n - to_end mask idx) >>= λ back. some (front ++ back))

-- The loops of `enqueue_bulk` and `dequeue_bulk`, with `offset` advanced by each piece.
unfoldable pub copy_in_all : List ℕ → ℕ → ℕ → ℕ → List (List ℕ) → Option (List ℕ)
unfolding copy_in
copy_in_all mem mask idx offset [] = some mem
copy_in_all mem mask idx offset (src ∷ srcs) =
    copy_in mem mask (add_size idx offset) src >>= λ mem'.
    copy_in_all mem' mask idx (add_size offset (length src)) srcs

unfoldable pub copy_out_all : List ℕ → ℕ → ℕ → ℕ → List ℕ → Option (List (List ℕ))
unfolding copy_out
copy_out_all mem mask idx offset [] = some []
copy_out_all mem mask idx offset (n ∷ ns) = copy_out mem mask (add_size idx offset) n >>= λ bytes.
    copy_out_all mem mask idx (add_size offset n) ns >>= λ rest. some (bytes ∷ rest)
