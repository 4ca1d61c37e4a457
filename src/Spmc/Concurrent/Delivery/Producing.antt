-- ===== src/Spmc/Concurrent/Delivery/Producing.antt =====
-- The steps of the producer keep the invariant.
use femtolog.Prelude.{
  append_cancel, some_inj, ℕ, ◌+◌, ◌≤◌, List, ◌++◌, some, ◌≡◌, refl, sym, ap, ap₂, ◌∙◌, subst,
  length, false, arith, append_assoc,
}
use femtolog.Word.{add_size}
use femtolog.Ring.{copy_in}
use femtolog.Ring.Window.{
  window, put_bytes, window-add, window-mod, put_bytes-mod, length-put_bytes, length-window,
  window-put_bytes,
}
use femtolog.Ring.Copy.{copy_in_lem}
use femtolog.Spsc.{distance}
use femtolog.Spmc.{lacks_room, publish}
use femtolog.Spmc.Concurrent.{ready, admitted, stored, System}
use femtolog.Spmc.Concurrent.Tiles.{Tiles-append}
use femtolog.Spmc.Concurrent.Delivery.{Pending, Inv, length-bytes, cap_bounds, tail_position}

module _ {cap : ℕ} {s : System} (inv : Inv cap s) (src : List ℕ) where
  open inv use {mem, bytes, ring}

  pub admit-Inv :
      lacks_room s.queue (length src) ≡ false → Inv cap (record s { producer = admitted src })
  admit-Inv room = record {
    mem = mem;
    bytes = bytes;
    allocated = inv.allocated;
    ring = ring;
    pending = ground (arith, ring.capacity, ring.used, cap_bounds ring);
    head_word = inv.head_word;
    tiles = inv.tiles;
    whole = inv.whole;
  }

  abbrev stored_bytes : List ℕ
  stored_bytes = put_bytes cap mem s.queue.tail_idx src

  -- The copy goes behind the bytes that the ring holds.
  beside :
      distance s.queue.tail_idx s.queue.commit_idx + length src ≤ cap
      → (window cap stored_bytes s.queue.commit_idx (length bytes) ≡ bytes)
        × (window cap stored_bytes s.queue.tail_idx (length src) ≡ src)
  beside room = (
    both.0,
    window-mod cap stored_bytes s.queue.tail_idx (s.queue.commit_idx + length bytes) (length src)
          (tail_position ring)
        ∙ both.1,
  )
    where
      moved : stored_bytes ≡ put_bytes cap mem (s.queue.commit_idx + length bytes) src
      moved =
          put_bytes-mod cap mem s.queue.tail_idx (s.queue.commit_idx + length bytes) src
            (tail_position ring)

      both :
          (window cap stored_bytes s.queue.commit_idx (length bytes) ≡ bytes)
          × (window cap stored_bytes (s.queue.commit_idx + length bytes) (length src) ≡ src)
      both =
          append_cancel (window cap stored_bytes s.queue.commit_idx (length bytes)) bytes _ src
            (length-window cap stored_bytes s.queue.commit_idx (length bytes))
            (sym (window-add cap stored_bytes s.queue.commit_idx (length bytes) (length src))
              ∙ ap (λ m. window cap m s.queue.commit_idx (length bytes + length src)) moved
              ∙ window-put_bytes cap mem s.queue.commit_idx (length bytes) src ring.storage
                  (omega (arith, length-bytes ring))
              ∙ ap (λ front. front ++ src)
                  (ap (window cap mem s.queue.commit_idx) (length-bytes ring) ∙ ring.holds))

  copied_in :
      distance s.queue.tail_idx s.queue.commit_idx + length src ≤ cap
      → copy_in mem s.queue.mask s.queue.tail_idx src ≡ some stored_bytes
  copied_in room = rw (
    ring.mask,
    ring.power,
    copy_in_lem ring.exponent ring.small mem (omega (arith, ring.storage, ring.power))
        s.queue.tail_idx src (omega (arith, ring.power)),
  )

  pub store-Inv :
      (m m' : List ℕ)
      → s.producer ≡ admitted src
      → s.queue.buffer ≡ some m
      → copy_in m s.queue.mask s.queue.tail_idx src ≡ some m'
      → Inv cap (record s { queue = record (s.queue) { buffer = some m' }; producer = stored src })
  store-Inv m m' at buffer copied =
      subst
        (λ b.
          Inv cap
            (record s { queue = record (s.queue) { buffer = some b }; producer = stored src }))
        written
        (record {
          mem = stored_bytes;
          bytes = bytes;
          allocated = refl;
          ring = record {
            exponent = ring.exponent;
            small = ring.small;
            power = ring.power;
            capacity = ring.capacity;
            mask = ring.mask;
            storage = omega (arith, length-put_bytes cap mem s.queue.tail_idx src, ring.storage);
            tail_word = ring.tail_word;
            commit_word = ring.commit_word;
            used = ring.used;
            holds =
                ap (window cap stored_bytes s.queue.commit_idx) (sym (length-bytes ring))
                ∙ (beside room).0;
          };
          pending = (room, (beside room).1);
          head_word = inv.head_word;
          tiles = inv.tiles;
          whole = inv.whole;
        })
    where
      room : distance s.queue.tail_idx s.queue.commit_idx + length src ≤ cap
      room = subst (Pending cap s.queue mem) at inv.pending

      written : stored_bytes ≡ m'
      written = some_inj (
          sym (copied_in room)
          ∙ ap (λ b. copy_in b s.queue.mask s.queue.tail_idx src)
              (some_inj (sym inv.allocated ∙ buffer))
          ∙ copied)

  pub advance_tail-Inv :
      s.producer ≡ stored src
      → Inv cap (record s {
        queue = publish s.queue (length src);
        producer = ready;
        sent = s.sent ++ src;
      })
  advance_tail-Inv at = record {
    mem = mem;
    bytes = bytes ++ src;
    allocated = inv.allocated;
    ring = record {
      exponent = ring.exponent;
      small = ring.small;
      power = ring.power;
      capacity = ring.capacity;
      mask = ring.mask;
      storage = ring.storage;
      tail_word = omega arith;
      commit_word = ring.commit_word;
      used = omega (arith, more, length-bytes ring, done);
      holds =
          ap (window cap mem s.queue.commit_idx) more
          ∙ window-add cap mem s.queue.commit_idx (length bytes) (length src)
          ∙ ap₂ (λ xs ys. xs ++ ys)
              (ap (window cap mem s.queue.commit_idx) (length-bytes ring) ∙ ring.holds)
              (sym (
                  window-mod cap mem s.queue.tail_idx (s.queue.commit_idx + length bytes)
                    (length src) (tail_position ring))
                ∙ done.1);
    };
    pending = tt;
    head_word = inv.head_word;
    tiles = Tiles-append s.queue.commit_idx s.calls bytes src s.queue.head_idx inv.tiles;
    whole = sym (append_assoc s.returned bytes src) ∙ ap (λ xs. xs ++ src) inv.whole;
  }
    where
      done :
          (distance s.queue.tail_idx s.queue.commit_idx + length src ≤ cap)
          × (window cap mem s.queue.tail_idx (length src) ≡ src)
      done = subst (Pending cap s.queue mem) at inv.pending

      more :
          distance (add_size s.queue.tail_idx (length src)) s.queue.commit_idx
          ≡ length bytes + length src
      more =
          omega (arith, length-bytes ring, cap_bounds ring, ring.commit_word, ring.tail_word, done)
