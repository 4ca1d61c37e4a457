-- ===== src/Spsc/Interleaved.antt =====
-- The producer and the consumer of src/logging/impl/spsc_queue.cc, interleaved: `enqueue_bytes` and
-- `dequeue_bytes` are cut into their accesses to the indices and the buffer.
pub mod Delivery
use femtolog.Prelude.{ℕ, ◌<◌, List, [], ◌++◌, some, ◌≡◌, true, false, length, ltb}
use femtolog.Word.{add_size}
use femtolog.Ring.{copy_in, copy_out}
use femtolog.Spsc.{Spsc, distance, lacks_room, refresh_head, refresh_tail}

-- Where the producer stands: it has found room for the bytes; it has copied them into the ring.
pub data Producer : Type 0 where
  ready : Producer
  admitted : List ℕ → Producer
  stored : List ℕ → Producer

-- Where the consumer stands: it has found so many bytes; it has copied them out.
pub data Consumer : Type 0 where
  resting : Consumer
  granted : ℕ → Consumer
  copied : List ℕ → Consumer

-- The queue and its two threads, the bytes published and those handed out since the start.
pub record System : Type 0 where
  pub queue : Spsc
  pub producer : Producer
  pub consumer : Consumer
  pub sent : List ℕ
  pub received : List ℕ

-- One access; a thread may look at the other's index whenever it is between calls. The snapshots are each thread's own. A call that ends in `kOverflow` or `kUnderflow` has
-- done nothing but take its snapshot anew.
pub data Step (s : System) : System → Type 0 where
  admit :
      (src : List ℕ)
      → s.producer ≡ ready
      → 0 < length src
      → lacks_room s.queue s.queue.head_cached_snapshot (length src) ≡ false
      → Step s (record s { producer = admitted src })
  look_at_head : s.producer ≡ ready → Step s (record s { queue = refresh_head s.queue })
  store :
      (src mem mem' : List ℕ)
      → s.producer ≡ admitted src
      → s.queue.buffer ≡ some mem
      → copy_in mem s.queue.mask s.queue.tail_idx src ≡ some mem'
      → Step s (record s { queue = record (s.queue) { buffer = some mem' }; producer = stored src })
  advance_tail :
      (src : List ℕ)
      → s.producer ≡ stored src
      → Step s (record s {
        queue = record (s.queue) {
          tail_idx = add_size s.queue.tail_idx (length src);
          tail_cached = add_size s.queue.tail_idx (length src);
        };
        producer = ready;
        sent = s.sent ++ src;
      })
  grant :
      (n : ℕ)
      → s.consumer ≡ resting
      → 0 < n
      → ltb (distance s.queue.tail_cached_snapshot s.queue.head_idx) n ≡ false
      → Step s (record s { consumer = granted n })
  look_at_tail : s.consumer ≡ resting → Step s (record s { queue = refresh_tail s.queue })
  copy :
      (n : ℕ) (mem out : List ℕ)
      → s.consumer ≡ granted n
      → s.queue.buffer ≡ some mem
      → copy_out mem s.queue.mask s.queue.head_idx n ≡ some out
      → Step s (record s { consumer = copied out })
  advance_head :
      (out : List ℕ)
      → s.consumer ≡ copied out
      → Step s (record s {
        queue = record (s.queue) {
          head_idx = add_size s.queue.head_idx (length out);
          head_cached = add_size s.queue.head_idx (length out);
        };
        consumer = resting;
        received = s.received ++ out;
      })

pub data Steps (s : System) : System → Type 0 where
  here : Steps s s
  then : {t u : System} → Steps s t → Step t u → Steps s u
