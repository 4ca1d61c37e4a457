-- ===== src/Spsc/Interleaved/Delivery/Storing.antt =====
-- The copy of the producer and the move of the tail, one after the other, keep what the queue stands for.
use femtolog.Prelude.{ℕ, ◌+◌, ◌≤◌, List, ◌++◌, some, ◌≡◌, refl, sym, ap, ap₂, ◌∙◌, length, arith}
use femtolog.Word.{add_size}
use femtolog.Ring.{copy_in}
use femtolog.Ring.Window.{
  window, put_bytes, window-add, window-mod, put_bytes-mod, length-put_bytes, length-window,
  window-put_bytes,
}
use femtolog.Ring.Copy.{copy_in_lem}
use femtolog.Spsc.{Spsc, distance}
use femtolog.Spsc.Invariant.{Represents, length-bytes, cap_bounds, tail_position}
use femtolog.Prelude.{append_cancel}

module _ {cap : ℕ} {q : Spsc} {bytes : List ℕ} (r : Represents cap q bytes) (src : List ℕ) where
  open r use {mem}

  abbrev pub stored_bytes : List ℕ
  stored_bytes = put_bytes cap mem q.tail_idx src

  module _ (room : distance q.tail_idx q.head_cached_snapshot + length src ≤ cap) where
    -- Behind the snapshot of the head there is room behind the head.
    nearer : length bytes + length src ≤ cap
    nearer = omega (arith, length-bytes r, r.head_lags)

    pub copied_in : copy_in mem q.mask q.tail_idx src ≡ some stored_bytes
    copied_in = rw (
      r.mask,
      r.power,
      copy_in_lem r.exponent r.small mem (omega (arith, r.storage, r.slack, r.power)) q.tail_idx src
          (omega (arith, nearer, r.power)),
    )

    -- The copy goes behind the bytes that the ring holds.
    pub beside :
        (window cap stored_bytes q.head_idx (length bytes) ≡ bytes)
        × (window cap stored_bytes q.tail_idx (length src) ≡ src)
    beside = (
      both.0,
      window-mod cap stored_bytes q.tail_idx (q.head_idx + length bytes) (length src)
            (tail_position r)
          ∙ both.1,
    )
      where
        both :
            (window cap stored_bytes q.head_idx (length bytes) ≡ bytes)
            × (window cap stored_bytes (q.head_idx + length bytes) (length src) ≡ src)
        both =
            append_cancel (window cap stored_bytes q.head_idx (length bytes)) bytes _ src
              (length-window cap stored_bytes q.head_idx (length bytes))
              (sym (window-add cap stored_bytes q.head_idx (length bytes) (length src))
                ∙ ap (λ m. window cap m q.head_idx (length bytes + length src))
                    (put_bytes-mod cap mem q.tail_idx (q.head_idx + length bytes) src
                      (tail_position r))
                ∙ window-put_bytes cap mem q.head_idx (length bytes) src
                    (omega (arith, r.storage, r.slack)) nearer
                ∙ ap (λ front. front ++ src)
                    (ap (window cap mem q.head_idx) (length-bytes r) ∙ r.holds))

    pub stored-Represents : Represents cap (record q { buffer = some stored_bytes }) bytes
    stored-Represents = record {
      mem = stored_bytes;
      exponent = r.exponent;
      positive = r.positive;
      small = r.small;
      power = r.power;
      allocated = refl;
      capacity = r.capacity;
      mask = r.mask;
      storage = length-put_bytes cap mem q.tail_idx src ∙ r.storage;
      slack = r.slack;
      head_word = r.head_word;
      tail_word = r.tail_word;
      head_snapshot_word = r.head_snapshot_word;
      tail_snapshot_word = r.tail_snapshot_word;
      used = r.used;
      head_seen = r.head_seen;
      head_lags = r.head_lags;
      tail_lags = r.tail_lags;
      tail_mirror = r.tail_mirror;
      head_mirror = r.head_mirror;
      holds = ap (window cap stored_bytes q.head_idx) (sym (length-bytes r)) ∙ beside.0;
    }

    -- With the bytes there already, only the tail moves.
    abbrev pub moved_tail : Spsc
    moved_tail = record q {
      tail_idx = add_size q.tail_idx (length src);
      tail_cached = add_size q.tail_idx (length src);
    }

    pub moved_tail-Represents :
        window cap mem q.tail_idx (length src) ≡ src → Represents cap moved_tail (bytes ++ src)
    moved_tail-Represents there = record {
      mem = mem;
      exponent = r.exponent;
      positive = r.positive;
      small = r.small;
      power = r.power;
      allocated = r.allocated;
      capacity = r.capacity;
      mask = r.mask;
      storage = r.storage;
      slack = r.slack;
      head_word = r.head_word;
      tail_word = omega arith;
      head_snapshot_word = r.head_snapshot_word;
      tail_snapshot_word = r.tail_snapshot_word;
      used = omega (arith, more, nearer);
      head_seen = omega (arith, room, cap_bounds r);
      head_lags = omega (arith, room, cap_bounds r, r.head_lags, length-bytes r);
      tail_lags = omega (arith, more, r.tail_lags, length-bytes r);
      tail_mirror = refl;
      head_mirror = r.head_mirror;
      holds =
          ap (window cap mem q.head_idx) more
          ∙ window-add cap mem q.head_idx (length bytes) (length src)
          ∙ ap₂ (λ xs ys. xs ++ ys) (ap (window cap mem q.head_idx) (length-bytes r) ∙ r.holds)
              (sym (
                  window-mod cap mem q.tail_idx (q.head_idx + length bytes) (length src)
                    (tail_position r))
                ∙ there);
    }
      where
        more : distance (add_size q.tail_idx (length src)) q.head_idx ≡ length bytes + length src
        more = omega (arith, length-bytes r, cap_bounds r, nearer)
