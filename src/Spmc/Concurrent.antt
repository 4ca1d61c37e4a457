-- ===== src/Spmc/Concurrent.antt =====
-- The producer and any number of consumers of src/logging/impl/spmc_queue.cc, interleaved: each step is
-- one access to a shared index or to the buffer. A call of `dequeue_bytes` that is under way stands in
-- a list, in the order of the tickets.
pub mod Tiles
pub mod Delivery
pub mod Race
use femtolog.Prelude.{ℕ, ◌<◌, List, [], ◌∷◌, ◌++◌, some, ◌≡◌, Bool, true, false, length}
use femtolog.Word.{add_size}
use femtolog.Ring.{copy_in, copy_out}
use femtolog.Spmc.{Spmc, lacks_room, publish, claim, rewind, short_of}

-- Where a call of `dequeue_bytes` stands: it has its ticket; it has found enough data; it has copied
-- the bytes out; it has found too little data and has yet to take its ticket back.
pub data Phase : Type 0 where
  ticketed : Phase
  checked : Phase
  copied : List ℕ → Phase
  denied : Phase

pub record Call : Type 0 where
  pub ticket : ℕ
  pub data_size : ℕ
  pub phase : Phase

-- Where the producer stands in `enqueue_bytes`.
pub data Producer : Type 0 where
  ready : Producer
  admitted : List ℕ → Producer
  stored : List ℕ → Producer

-- The queue, the threads, the bytes published since the start, and those that calls have returned, in
-- the order in which the calls moved the commit index.
pub record System : Type 0 where
  pub queue : Spmc
  pub producer : Producer
  pub calls : List Call
  pub sent : List ℕ
  pub returned : List ℕ

-- One access. `Allowed` limits the sizes that consumers ask for.
pub data Step (Allowed : System → ℕ → Type 0) (s : System) : System → Type 0 where
  admit :
      (src : List ℕ)
      → s.producer ≡ ready
      → 0 < length src
      → lacks_room s.queue (length src) ≡ false
      → Step Allowed s (record s { producer = admitted src })
  store :
      (src mem mem' : List ℕ)
      → s.producer ≡ admitted src
      → s.queue.buffer ≡ some mem
      → copy_in mem s.queue.mask s.queue.tail_idx src ≡ some mem'
      → Step Allowed s
          (record s { queue = record (s.queue) { buffer = some mem' }; producer = stored src })
  advance_tail :
      (src : List ℕ)
      → s.producer ≡ stored src
      → Step Allowed s (record s {
        queue = publish s.queue (length src);
        producer = ready;
        sent = s.sent ++ src;
      })
  take_ticket :
      (n : ℕ)
      → 0 < n
      → Allowed s n
      → Step Allowed s (record s {
        queue = claim s.queue n;
        calls =
            s.calls ++ (record { ticket = s.queue.head_idx; data_size = n; phase = ticketed } ∷ []);
      })
  check :
      (front back : List Call) (ticket n : ℕ)
      → s.calls ≡ front ++ (record { ticket = ticket; data_size = n; phase = ticketed } ∷ back)
      → short_of s.queue ticket n ≡ false
      → Step Allowed s (record s {
        calls = front ++ (record { ticket = ticket; data_size = n; phase = checked } ∷ back);
      })
  deny :
      (front back : List Call) (ticket n : ℕ)
      → s.calls ≡ front ++ (record { ticket = ticket; data_size = n; phase = ticketed } ∷ back)
      → short_of s.queue ticket n ≡ true
      → Step Allowed s (record s {
        calls = front ++ (record { ticket = ticket; data_size = n; phase = denied } ∷ back);
      })
  take_back :
      (front back : List Call) (ticket n : ℕ)
      → s.calls ≡ front ++ (record { ticket = ticket; data_size = n; phase = denied } ∷ back)
      → Step Allowed s (record s { queue = rewind s.queue n; calls = front ++ back })
  copy :
      (front back : List Call) (ticket n : ℕ) (mem out : List ℕ)
      → s.calls ≡ front ++ (record { ticket = ticket; data_size = n; phase = checked } ∷ back)
      → s.queue.buffer ≡ some mem
      → copy_out mem s.queue.mask ticket n ≡ some out
      → Step Allowed s (record s {
        calls = front ++ (record { ticket = ticket; data_size = n; phase = copied out } ∷ back);
      })
  advance_commit :
      (front back : List Call) (ticket n : ℕ) (out : List ℕ)
      → s.calls ≡ front ++ (record { ticket = ticket; data_size = n; phase = copied out } ∷ back)
      → s.queue.commit_idx ≡ ticket
      → Step Allowed s (record s {
        queue = record (s.queue) { commit_idx = add_size ticket n };
        calls = front ++ back;
        returned = s.returned ++ out;
      })

pub data Steps (Allowed : System → ℕ → Type 0) (s : System) : System → Type 0 where
  here : Steps Allowed s s
  then : {t u : System} → Steps Allowed s t → Step Allowed t u → Steps Allowed s u
