-- ===== src/Spsc/Interleaved/Delivery.antt =====
-- In every interleaving of the two threads the bytes arrive once, in order: the invariant.
pub mod Storing
pub mod Interleaving
use femtolog.Prelude.{
  some_inj, ℕ, ◌+◌, ◌-◌, ◌%◌, ◌^◌, ◌≤◌, ◌<◌, List, [], ◌∷◌, ◌++◌, some, ◌≡◌, refl, sym, ap, ap₂,
  ◌∙◌, subst, length, take, drop, true, false, ltb, arith, append_assoc, take-append-drop,
  length-take,
}
use femtolog.Word.{add_size}
use femtolog.Ring.{copy_in, copy_out}
use femtolog.Ring.Window.{
  window, put_bytes, window-add, window-mod, put_bytes-mod, length-put_bytes, length-window,
  window-put_bytes,
}
use femtolog.Ring.Copy.{copy_in_lem, copy_out_lem}
use femtolog.Spsc.{Spsc, distance, lacks_room, refresh_head, refresh_tail}
use femtolog.Spsc.Invariant.{
  Represents, length-bytes, cap_bounds, wrapped_position, tail_position, refresh_head-Represents,
  refresh_tail-Represents,
}
use femtolog.Spsc.Enqueue.{room_behind}
use femtolog.Spsc.Dequeue.{copied_out, consumed, consumed-Represents, seen}
use femtolog.Prelude.{append_cancel, take-front}
use femtolog.Spsc.Interleaved.{
  Producer, ready, admitted, stored, Consumer, resting, granted, copied, System, Step, admit,
  look_at_head, store, advance_tail, grant, look_at_tail, copy, advance_head, Steps, here, then,
}

-- What the producer may rely on: room behind the tail, and then its bytes there.
abbrev pub Admitted : ℕ → Spsc → List ℕ → Producer → Type 0
Admitted cap q mem ready = Unit
Admitted cap q mem (admitted src) = distance q.tail_idx q.head_cached_snapshot + length src ≤ cap
Admitted cap q mem (stored src) =
    (distance q.tail_idx q.head_cached_snapshot + length src ≤ cap)
    × (window cap mem q.tail_idx (length src) ≡ src)

-- What the consumer may rely on: the bytes it asked for, and then that it has the first of the ring.
abbrev pub Granted : Spsc → List ℕ → Consumer → Type 0
Granted q bytes resting = Unit
Granted q bytes (granted n) = n ≤ distance q.tail_cached_snapshot q.head_idx
Granted q bytes (copied out) =
    (length out ≤ distance q.tail_cached_snapshot q.head_idx) × (out ≡ take (length out) bytes)

pub record Inv (cap : ℕ) (s : System) : Type 0 where
  pub mem : List ℕ
  pub bytes : List ℕ
  pub allocated : s.queue.buffer ≡ some mem
  pub rep : Represents cap s.queue bytes
  pub producing : Admitted cap s.queue mem s.producer
  pub consuming : Granted s.queue bytes s.consumer
  pub whole : s.received ++ bytes ≡ s.sent

-- Both threads are between calls at the start.
abbrev pub start : Spsc → List ℕ → System
start q bytes = record {
  queue = q;
  producer = ready;
  consumer = resting;
  sent = bytes;
  received = [];
}

pub start-Inv :
    {cap : ℕ} {q : Spsc} {bytes : List ℕ} → Represents cap q bytes → Inv cap (start q bytes)
start-Inv r = record {
  mem = r.mem;
  bytes = _;
  allocated = r.allocated;
  rep = r;
  producing = tt;
  consuming = tt;
  whole = refl;
}
