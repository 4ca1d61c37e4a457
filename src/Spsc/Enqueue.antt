-- ===== src/Spsc/Enqueue.antt =====
-- `enqueue_bytes` against the bounded byte sequence.
use femtolog.Prelude.{
  ℕ, ◌+◌, ◌-◌, ◌≤◌, List, ◌++◌, Option, some, ◌≡◌, refl, sym, ap, ◌∙◌, subst, length, ltb, ◌==◌,
  Bool-cases, true, false, inl, inr, arith,
}
use femtolog.Word.{add_size}
use femtolog.Ring.Window.{window, put_bytes, window-put_bytes, put_bytes-mod, length-put_bytes}
use femtolog.Ring.Copy.{copy_in_lem}
use femtolog.Spsc.{
  Status, ok, uninitialized, Spsc, distance, lacks_room, refresh_head, commit_enqueue, enqueue_in,
  enqueue_bytes, with_buffer,
}
use femtolog.Spsc.Invariant.{
  Represents, length-bytes, cap_bounds, tail_position, refresh_head-Represents,
}
use femtolog.Spsc.Fifo

-- A call that leaves the queue standing for `bytes'`, with status `s`.
abbrev pub Enqueued : ℕ → Option (Status × Spsc) → Status → List ℕ → Type 0
Enqueued cap result s bytes' = (q' : Spsc) × (result ≡ some (s, q')) × Represents cap q' bytes'

-- The queue after `n` more bytes, over the memory `mem'`.
abbrev pub advanced : Spsc → List ℕ → ℕ → Spsc
advanced q mem' n = record q {
  buffer = some mem';
  tail_idx = add_size q.tail_idx n;
  tail_cached = add_size q.tail_idx n;
}

module _ {cap : ℕ} {q : Spsc} {bytes : List ℕ} (r : Represents cap q bytes) (src : List ℕ) where
  open r use {mem, exponent, small, power}

  pub filled : List ℕ
  filled = put_bytes cap mem q.tail_idx src

  pub advanced-Represents :
      distance q.tail_idx q.head_cached_snapshot + length src ≤ cap
      → Represents cap (advanced q filled (length src)) (bytes ++ src)
  unfolding filled
  advanced-Represents room = record {
    mem = filled;
    exponent = exponent;
    positive = r.positive;
    small = small;
    power = power;
    allocated = refl;
    capacity = r.capacity;
    mask = r.mask;
    storage = length-put_bytes cap mem q.tail_idx src ∙ r.storage;
    slack = r.slack;
    head_word = r.head_word;
    tail_word = omega arith;
    head_snapshot_word = r.head_snapshot_word;
    tail_snapshot_word = r.tail_snapshot_word;
    used = omega (arith, length-bytes r, cap_bounds r);
    head_seen = omega (arith, cap_bounds r);
    head_lags = omega (arith, cap_bounds r);
    tail_lags = omega (arith, length-bytes r, cap_bounds r);
    tail_mirror = refl;
    head_mirror = r.head_mirror;
    holds =
        ap (window cap filled q.head_idx) used'
        ∙ ap (λ m. window cap m q.head_idx (length bytes + length src)) moved
        ∙ window-put_bytes cap mem q.head_idx (length bytes) src (omega (arith, r.storage, r.slack))
            (omega (arith, length-bytes r))
        ∙ ap (λ front. front ++ src) (ap (window cap mem q.head_idx) (length-bytes r) ∙ r.holds);
  }
    where
      used' : distance (add_size q.tail_idx (length src)) q.head_idx ≡ length bytes + length src
      used' = omega (arith, length-bytes r, cap_bounds r)

      moved : filled ≡ put_bytes cap mem (q.head_idx + length bytes) src
      moved = put_bytes-mod cap mem q.tail_idx (q.head_idx + length bytes) src (tail_position r)

  -- With room for `src` behind the snapshot of the head, the copy succeeds.
  commit_enqueue_lem :
      distance q.tail_idx q.head_cached_snapshot + length src ≤ cap
      → Enqueued cap (commit_enqueue q mem src) ok (bytes ++ src)
  unfolding commit_enqueue filled
  commit_enqueue_lem room = (advanced q filled (length src), copied, advanced-Represents room)
    where
      copied : commit_enqueue q mem src ≡ some (ok, advanced q filled (length src))
      copied = rw (
        r.mask,
        power,
        copy_in_lem exponent small mem (omega (arith, r.storage, r.slack)) q.tail_idx src
            (omega arith),
      )

module _ {cap : ℕ} {q : Spsc} {bytes : List ℕ} (r : Represents cap q bytes) (src : List ℕ) where
  open r use {mem}

  -- What a test of `lacks_room` says of the distance to the head that it is given.
  pub room_behind :
      (head : ℕ)
      → distance q.tail_idx head ≤ cap
      → lacks_room q head (length src) ≡ false
      → distance q.tail_idx head + length src ≤ cap
  room_behind head near enough = ground (arith, cap_bounds r)

  full_behind :
      lacks_room q q.head_idx (length src) ≡ true → ltb (cap - length bytes) (length src) ≡ true
  full_behind full = ground (arith, cap_bounds r, length-bytes r)

  not_full : length bytes + length src ≤ cap → ltb (cap - length bytes) (length src) ≡ false
  not_full room = ground arith

  enqueue_in_lem :
      Enqueued cap
        (enqueue_in q mem src)
        (Fifo.enqueue cap bytes src).0
        (Fifo.enqueue cap bytes src).1
  unfolding enqueue_in Fifo.enqueue refresh_head-Represents
  enqueue_in_lem = elim (Bool-cases (length src == 0)) [
    | inl nothing ↦ rw nothing (q, refl, r)
    | inr some_bytes ↦
        rw some_bytes (elim (Bool-cases (lacks_room q q.head_cached_snapshot (length src))) [
          | inr enough ↦
              rw
                (enough, not_full (omega (arith, length-bytes r, room_behind _ r.head_seen enough)))
                (commit_enqueue_lem r src (room_behind _ r.head_seen enough))
          | inl stale ↦ rw stale (elim (Bool-cases (lacks_room q q.head_idx (length src))) [
            | inl full ↦
                rw (full, full_behind full) (refresh_head q, refl, refresh_head-Represents r)
            | inr enough ↦
                rw (enough, not_full (omega (arith, length-bytes r, room_behind _ r.used enough)))
                  (commit_enqueue_lem (refresh_head-Represents r) src (room_behind _ r.used enough))
          ])
        ])
  ]

-- In every state that stands for `bytes`, `enqueue_bytes` returns the status of the bounded byte
-- sequence and leaves the queue standing for its result. It never writes outside the buffer.
pub enqueue_bytes_refines :
    {cap : ℕ} {q : Spsc} {bytes : List ℕ}
    → Represents cap q bytes
    → (src : List ℕ)
    → Enqueued cap
        (enqueue_bytes q src)
        (Fifo.enqueue cap bytes src).0
        (Fifo.enqueue cap bytes src).1
unfolding enqueue_bytes
enqueue_bytes_refines {cap} {q} {bytes} r src =
    subst
      (λ result. Enqueued cap result (Fifo.enqueue cap bytes src).0 (Fifo.enqueue cap bytes src).1)
      (sym (
        ap (λ b. with_buffer b (some (uninitialized, q)) (λ mem. enqueue_in q mem src))
          r.allocated))
      (enqueue_in_lem r src)
