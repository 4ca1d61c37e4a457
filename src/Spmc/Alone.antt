-- ===== src/Spmc/Alone.antt =====
-- With no other thread, the queue for several consumers does what the queue for one does.
use femtolog.Prelude.{
  ℕ, ◌^◌, ◌<◌, List, [], ◌∷◌, Option, none, some, ◌>>=◌, ◌≡◌, refl, ap, Bool, true, false, length,
  map, ◌==◌, ==_iff, if◌then◌else◌, arith,
}
use femtolog.Word.{add_size, sub_size}
use femtolog.Ring.{copy_in, copy_out, copy_in_all, copy_out_all}
use femtolog.Ring.Window.{sum}
use femtolog.Spsc.{
  Status, ok, uninitialized, underflow, overflow, size_is_zero, Spsc, distance, with_buffer,
  total_from,
}
use femtolog.Spsc as Single
use mathlib.Core.List.{flatten}
use femtolog.Spsc.Runs.{Op, Reply, fifo_run}
use femtolog.Spsc.Invariant.{Represents, refresh_head-Represents, refresh_tail-Represents}
use femtolog.Spsc.Enqueue.{enqueue_bytes_refines}
use femtolog.Spsc.Dequeue.{dequeue_bytes_refines, peek_bytes_refines}
use femtolog.Spsc.Bulk.{enqueue_bulk-enqueue_bytes, dequeue_bulk_refines}
use femtolog.Spmc.{
  Spmc, lacks_room, claim, rewind, short_of, commit, enqueue_in, enqueue_bytes, dequeue_in,
  dequeue_bytes, peek_in, peek_bytes, enqueue_bulk_in, enqueue_bulk, dequeue_bulk_in, dequeue_bulk,
}

-- The queue with the ring and the indices of `s`, no dequeue under way.
abbrev pub from_spsc : Spsc → Spmc
from_spsc s = record {
  buffer = s.buffer;
  capacity = s.capacity;
  mask = s.mask;
  tail_idx = s.tail_idx;
  head_idx = s.head_idx;
  commit_idx = s.head_idx;
  allocation_size = s.allocation_size;
}

-- With both snapshots taken anew.
abbrev pub fresh : Spsc → Spsc
fresh s = record s { head_cached_snapshot = s.head_idx; tail_cached_snapshot = s.tail_idx }

abbrev pub lift {ℓ κ} : {X : Type ℓ} {Y : Type κ} → (X → Y) → Option X → Option Y
lift f none = none
lift f (some x) = some (f x)

abbrev pub pair {ℓ} : {A : Type ℓ} → A × Spsc → A × Spmc
pair (a, s) = (a, from_spsc s)

abbrev pub triple {ℓ κ} : {A : Type ℓ} {B : Type κ} → A × B × Spsc → A × B × Spmc
triple (a, b, s) = (a, b, from_spsc s)

record Lifts {X Y : Type 0} (f : X → Y) (y : Option Y) (x : Option X) : Type 0 where
  agree : y ≡ lift f x

-- The shape of the operations, part by part.
module _ {X Y : Type 0} (f : X → Y) where
  lift_buffer :
      (b : Option (List ℕ)) {y : Option Y} {x : Option X} {p : List ℕ → Option Y}
      {q : List ℕ → Option X}
      → Lifts f y x
      → ((mem : List ℕ) → Lifts f (p mem) (q mem))
      → Lifts f (with_buffer b y p) (with_buffer b x q)
  lift_buffer none e h = e
  lift_buffer (some mem) e h = h mem

  lift_if :
      (b : Bool) {y y' : Option Y} {x x' : Option X}
      → Lifts f y x
      → Lifts f y' x'
      → Lifts f (if b then y else y') (if b then x else x')
  lift_if true e e' = e
  lift_if false e e' = e'

  -- The test of a fresh snapshot is made twice.
  lift_twice :
      (b : Bool) {y y' : Option Y} {x x' : Option X}
      → Lifts f y x
      → Lifts f y' x'
      → Lifts f (if b then y else y') (if b then (if b then x else x') else x')
  lift_twice true e e' = e
  lift_twice false e e' = e'

  lift_bind :
      {C : Type 0} (o : Option C) {p : C → Option Y} {q : C → Option X}
      → ((c : C) → Lifts f (p c) (q c))
      → Lifts f (o >>= p) (o >>= q)
  lift_bind none h = record { agree = refl }
  lift_bind (some c) h = h c

enqueue_bytes-pair :
    (s : Spsc) (src : List ℕ)
    → enqueue_bytes (from_spsc s) src ≡ lift pair (Single.enqueue_bytes (fresh s) src)
unfolding enqueue_bytes enqueue_in Single.enqueue_bytes
enqueue_bytes-pair s src = lifted.agree
  where
    lifted : Lifts pair (enqueue_bytes (from_spsc s) src) (Single.enqueue_bytes (fresh s) src)
    lifted =
        lift_buffer pair s.buffer (record { agree = refl })
          (λ mem.
            lift_if pair (length src == 0) (record { agree = refl })
              (lift_twice pair (lacks_room (from_spsc s) (length src)) (record { agree = refl })
                (lift_bind pair (copy_in mem s.mask s.tail_idx src)
                  (λ mem'. record { agree = refl }))))

enqueue_bulk-pair :
    (s : Spsc) (srcs : List (List ℕ))
    → enqueue_bulk (from_spsc s) srcs ≡ lift pair (Single.enqueue_bulk (fresh s) srcs)
unfolding enqueue_bulk enqueue_bulk_in Single.enqueue_bulk
enqueue_bulk-pair s srcs = lifted.agree
  where
    total : ℕ
    total = total_from 0 (map length srcs)

    lifted : Lifts pair (enqueue_bulk (from_spsc s) srcs) (Single.enqueue_bulk (fresh s) srcs)
    lifted =
        lift_buffer pair s.buffer (record { agree = refl })
          (λ mem.
            lift_if pair (length srcs == 0) (record { agree = refl })
              (lift_if pair (total == 0) (record { agree = refl })
                (lift_twice pair (lacks_room (from_spsc s) total) (record { agree = refl })
                  (lift_bind pair (copy_in_all mem s.mask s.tail_idx 0 srcs)
                    (λ mem'. record { agree = refl })))))

module _ (s : Spsc) (word : s.head_idx < 2 ^ 64) where
  -- The ticket is taken back.
  rewound : (n : ℕ) → n < 2 ^ 64 → rewind (claim (from_spsc s) n) n ≡ from_spsc s
  rewound n small =
      ap (λ (h : ℕ). let q : Spmc = record (from_spsc s) { head_idx = h } in q)
        (let e : sub_size (add_size s.head_idx n) n ≡ s.head_idx = omega arith in e)

  -- Nobody is before the ticket.
  committed :
      (n : ℕ)
      → commit (claim (from_spsc s) n) s.head_idx n
        ≡ some (record (claim (from_spsc s) n) { commit_idx = add_size s.head_idx n })
  committed n =
      ap
        (λ b.
          if b
          then some (record (claim (from_spsc s) n) { commit_idx = add_size s.head_idx n })
          else none)
        ((==_iff s.head_idx s.head_idx).1 refl)

  dequeue_bytes-triple :
      (n : ℕ)
      → n < 2 ^ 64
      → dequeue_bytes (from_spsc s) n ≡ lift triple (Single.dequeue_bytes (fresh s) n)
  unfolding dequeue_bytes dequeue_in Single.dequeue_bytes
  dequeue_bytes-triple n small = lifted.agree
    where
      lifted : Lifts triple (dequeue_bytes (from_spsc s) n) (Single.dequeue_bytes (fresh s) n)
      lifted =
          lift_buffer triple s.buffer (record { agree = refl })
            (λ mem.
              lift_if triple (n == 0) (record { agree = refl })
                (lift_twice triple (short_of (from_spsc s) s.head_idx n)
                  (record { agree = ap (λ q. some (underflow, [], q)) (rewound n small) })
                  (lift_bind triple (copy_out mem s.mask s.head_idx n) (λ out. record {
                    agree = ap (λ o. o >>= λ q. some (ok, out, q)) (committed n);
                  }))))

  dequeue_bulk-triple :
      (sizes : List ℕ)
      → total_from 0 sizes < 2 ^ 64
      → dequeue_bulk (from_spsc s) sizes ≡ lift triple (Single.dequeue_bulk (fresh s) sizes)
  unfolding dequeue_bulk dequeue_bulk_in Single.dequeue_bulk
  dequeue_bulk-triple sizes small = lifted.agree
    where
      total : ℕ
      total = total_from 0 sizes

      lifted : Lifts triple (dequeue_bulk (from_spsc s) sizes) (Single.dequeue_bulk (fresh s) sizes)
      lifted =
          lift_buffer triple s.buffer (record { agree = refl })
            (λ mem.
              lift_if triple (length sizes == 0) (record { agree = refl })
                (lift_if triple (total == 0) (record { agree = refl })
                  (lift_twice triple (short_of (from_spsc s) s.head_idx total)
                    (record { agree = ap (λ q. some (underflow, [], q)) (rewound total small) })
                    (lift_bind triple (copy_out_all mem s.mask s.head_idx 0 sizes) (λ outs. record {
                      agree = ap (λ o. o >>= λ q. some (ok, outs, q)) (committed total);
                    })))))

peek_bytes-peek_bytes :
    (s : Spsc) (n : ℕ) → peek_bytes (from_spsc s) n ≡ Single.peek_bytes (fresh s) n
unfolding peek_bytes peek_in Single.peek_bytes
peek_bytes-peek_bytes s n = refl

-- The calls and replies of a session, as for the other queue.
abbrev pub step : Spmc → Op → Option (Reply × Spmc)
step q (Op.enqueue src) = enqueue_bytes q src >>= λ r. some ((r.0, []), r.1)
step q (Op.dequeue n) = dequeue_bytes q n >>= λ r. some ((r.0, r.1 ∷ []), r.2)
step q (Op.peek n) = peek_bytes q n >>= λ r. some ((r.0, r.1 ∷ []), q)
step q (Op.enqueue_pieces srcs) = enqueue_bulk q srcs >>= λ r. some ((r.0, []), r.1)
step q (Op.dequeue_pieces sizes) = dequeue_bulk q sizes >>= λ r. some ((r.0, r.1), r.2)

unfoldable pub run : Spmc → List Op → Option (List Reply)
run q [] = some []
run q (op ∷ ops) = step q op >>= λ r. run r.1 ops >>= λ replies. some (r.0 ∷ replies)

-- The sizes are those of a `std::size_t`.
abbrev pub Fits : List Op → Type 0
Fits [] = Unit
Fits (Op.dequeue n ∷ ops) = (n < 2 ^ 64) × Fits ops
Fits (Op.enqueue_pieces srcs ∷ ops) = (length (flatten srcs) < 2 ^ 64) × Fits ops
Fits (Op.dequeue_pieces sizes ∷ ops) = (sum sizes < 2 ^ 64) × Fits ops
Fits (_ ∷ ops) = Fits ops

total_from-lt : (acc : ℕ) (sizes : List ℕ) → acc < 2 ^ 64 → total_from acc sizes < 2 ^ 64
total_from-lt acc [] h = h
total_from-lt acc (n ∷ sizes) h = total_from-lt (add_size acc n) sizes (omega arith)

fresh-Represents :
    {cap : ℕ} {s : Spsc} {bytes : List ℕ} → Represents cap s bytes → Represents cap (fresh s) bytes
unfolding refresh_head-Represents refresh_tail-Represents
fresh-Represents r = refresh_tail-Represents (refresh_head-Represents r)

-- One thread that makes every call sees the sequence bounded by `cap` in a queue whose ring stands for
-- `bytes`, no dequeue being under way and all sizes fitting a `std::size_t`; it never waits, and no
-- copy leaves the buffer. So the queue answers it as the queue for one consumer does.
pub alone_refines :
    {cap : ℕ} (ops : List Op) {s : Spsc} {bytes : List ℕ}
    → Represents cap s bytes
    → Fits ops
    → run (from_spsc s) ops ≡ some (fifo_run cap bytes ops)
unfolding run fifo_run
alone_refines [] r h = refl
alone_refines (Op.enqueue src ∷ ops) {s} r h =
    let (s', e, r') = enqueue_bytes_refines (fresh-Represents r) src in
    rw (enqueue_bytes-pair s src, e, alone_refines ops r' h)
alone_refines (Op.dequeue n ∷ ops) {s} r h =
    let (s', e, r') = dequeue_bytes_refines (fresh-Represents r) n in
    rw (dequeue_bytes-triple s r.head_word n h.0, e, alone_refines ops r' h.1)
alone_refines (Op.peek n ∷ ops) {s} r h =
    rw (peek_bytes-peek_bytes s n, peek_bytes_refines (fresh-Represents r) n, alone_refines ops r h)
alone_refines (Op.enqueue_pieces srcs ∷ ops) {s} r h =
    let (s', e, r') = enqueue_bytes_refines (fresh-Represents r) (flatten srcs) in
    rw (
      enqueue_bulk-pair s srcs,
      enqueue_bulk-enqueue_bytes (fresh-Represents r) srcs h.0,
      e,
      alone_refines ops r' h.1,
    )
alone_refines (Op.dequeue_pieces sizes ∷ ops) {s} r h =
    let (s', e, r') = dequeue_bulk_refines (fresh-Represents r) sizes h.0 in
    rw (
      dequeue_bulk-triple s r.head_word sizes (total_from-lt 0 sizes (omega arith)),
      e,
      alone_refines ops r' h.1,
    )
