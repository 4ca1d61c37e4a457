-- ===== src/Spsc/Runs.antt =====
-- Whole sessions: no sequence of calls tells the queue from the bounded byte sequence.
use femtolog.Prelude.{
  ℕ, ◌+◌, ◌^◌, ◌<◌, List, [], ◌∷◌, Option, some, ◌>>=◌, ◌≡◌, refl, length, ◌==◌, arith,
}
use mathlib.Core.List.{flatten}
use femtolog.Ring.Window.{sum}
use femtolog.Spsc.{
  Status, Spsc, enqueue_bytes, dequeue_bytes, peek_bytes, enqueue_bulk, dequeue_bulk, size, empty,
  available_space,
}
use femtolog.Spsc.Invariant.{Represents, length-bytes, cap_bounds}
use femtolog.Spsc.Enqueue.{enqueue_bytes_refines}
use femtolog.Spsc.Dequeue.{dequeue_bytes_refines, peek_bytes_refines}
use femtolog.Spsc.Bulk.{enqueue_bulk-enqueue_bytes, dequeue_bulk_refines}
use femtolog.Spsc.Fifo

-- The public operations, and what a caller sees of each: the status and the bytes handed out.
pub data Op : Type 0 where
  enqueue : List ℕ → Op
  dequeue : ℕ → Op
  peek : ℕ → Op
  enqueue_pieces : List (List ℕ) → Op
  dequeue_pieces : List ℕ → Op

abbrev pub Reply : Type 0
Reply = Status × List (List ℕ)

abbrev pub step : Spsc → Op → Option (Reply × Spsc)
step q (enqueue src) = enqueue_bytes q src >>= λ r. some ((r.0, []), r.1)
step q (dequeue n) = dequeue_bytes q n >>= λ r. some ((r.0, r.1 ∷ []), r.2)
step q (peek n) = peek_bytes q n >>= λ r. some ((r.0, r.1 ∷ []), q)
step q (enqueue_pieces srcs) = enqueue_bulk q srcs >>= λ r. some ((r.0, []), r.1)
step q (dequeue_pieces sizes) = dequeue_bulk q sizes >>= λ r. some ((r.0, r.1), r.2)

unfoldable pub run : Spsc → List Op → Option (List Reply)
run q [] = some []
run q (op ∷ ops) = step q op >>= λ r. run r.1 ops >>= λ replies. some (r.0 ∷ replies)

abbrev pub fifo_step : ℕ → List ℕ → Op → Reply × List ℕ
fifo_step cap bytes (enqueue src) = let (s, rest) = Fifo.enqueue cap bytes src in ((s, []), rest)
fifo_step cap bytes (dequeue n) = let (s, out, rest) = Fifo.dequeue bytes n in ((s, out ∷ []), rest)
fifo_step cap bytes (peek n) = let (s, out) = Fifo.peek bytes n in ((s, out ∷ []), bytes)
fifo_step cap bytes (enqueue_pieces srcs) =
    let (s, rest) = Fifo.enqueue cap bytes (flatten srcs) in ((s, []), rest)
fifo_step cap bytes (dequeue_pieces sizes) =
    let (s, outs, rest) = Fifo.dequeue_bulk bytes sizes in ((s, outs), rest)

unfoldable pub fifo_run : ℕ → List ℕ → List Op → List Reply
fifo_run cap bytes [] = []
fifo_run cap bytes (op ∷ ops) =
    let (reply, rest) = fifo_step cap bytes op in reply ∷ fifo_run cap rest ops

-- The total of a bulk call is a `std::size_t`.
abbrev pub Addressable : List Op → Type 0
Addressable [] = Unit
Addressable (enqueue_pieces srcs ∷ ops) = (length (flatten srcs) < 2 ^ 64) × Addressable ops
Addressable (dequeue_pieces sizes ∷ ops) = (sum sizes < 2 ^ 64) × Addressable ops
Addressable (_ ∷ ops) = Addressable ops

-- A queue that stands for `bytes` answers every sequence of calls as the sequence bounded by `cap`
-- does, bulk totals fitting a `std::size_t`; in particular no call leaves the buffer.
pub run_refines :
    {cap : ℕ} (ops : List Op) {q : Spsc} {bytes : List ℕ}
    → Represents cap q bytes
    → Addressable ops
    → run q ops ≡ some (fifo_run cap bytes ops)
unfolding run fifo_run
run_refines [] r h = refl
run_refines (enqueue src ∷ ops) r h =
    let (q', e, r') = enqueue_bytes_refines r src in rw (e, run_refines ops r' h)
run_refines (dequeue n ∷ ops) r h =
    let (q', e, r') = dequeue_bytes_refines r n in rw (e, run_refines ops r' h)
run_refines (peek n ∷ ops) r h = rw (peek_bytes_refines r n, run_refines ops r h)
run_refines (enqueue_pieces srcs ∷ ops) r h =
    let (q', e, r') = enqueue_bytes_refines r (flatten srcs) in
    rw (enqueue_bulk-enqueue_bytes r srcs h.0, e, run_refines ops r' h.1)
run_refines (dequeue_pieces sizes ∷ ops) r h =
    let (q', e, r') = dequeue_bulk_refines r sizes h.0 in rw (e, run_refines ops r' h.1)

-- `size`, `empty` and `available_space` report the length of the sequence.
pub observers_lem :
    {cap : ℕ} {q : Spsc} {bytes : List ℕ}
    → Represents cap q bytes
    → (size q ≡ length bytes)
      × (empty q ≡ (length bytes == 0))
      × (available_space q + length bytes ≡ cap)
unfolding size empty available_space
observers_lem r = (
  omega (arith, length-bytes r),
  ground (arith, length-bytes r),
  omega (arith, length-bytes r, cap_bounds r),
)
