-- ===== src/Spsc/Interleaved/Delivery/Interleaving.antt =====
-- Every interleaving keeps the invariant.
use femtolog.Prelude.{
  some_inj, ℕ, ◌+◌, ◌≤◌, List, ◌++◌, some, ◌≡◌, refl, sym, ap, ◌∙◌, subst, length, take, drop,
  arith, append_assoc, take-append-drop, length-take,
}
use femtolog.Word.{add_size}
use femtolog.Ring.{copy_in, copy_out}
use femtolog.Ring.Window.{window}
use femtolog.Spsc.{distance, refresh_head, refresh_tail}
use femtolog.Spsc.Invariant.{length-bytes, refresh_head-Represents, refresh_tail-Represents}
use femtolog.Spsc.Enqueue.{room_behind}
use femtolog.Spsc.Dequeue.{copied_out, consumed, consumed-Represents, seen}
use femtolog.Prelude.{take-front}
use femtolog.Spsc.Interleaved.{
  ready, admitted, stored, Consumer, resting, granted, copied, System, Step, admit, look_at_head,
  store, advance_tail, grant, look_at_tail, copy, advance_head, Steps, here, then,
}
use femtolog.Spsc.Interleaved.Delivery.{Admitted, Granted, Inv}
use femtolog.Spsc.Interleaved.Delivery.Storing.{
  stored_bytes, copied_in, beside, stored-Represents, moved_tail-Represents,
}

module _ {cap : ℕ} {s : System} (inv : Inv cap s) where
  open inv use {mem, bytes, rep}

  same_mem : rep.mem ≡ mem
  same_mem = some_inj (sym rep.allocated ∙ inv.allocated)

  look_at_head-Inv : s.producer ≡ ready → Inv cap (record s { queue = refresh_head s.queue })
  look_at_head-Inv idle = record {
    mem = mem;
    bytes = bytes;
    allocated = inv.allocated;
    rep = refresh_head-Represents rep;
    producing = subst (Admitted cap (refresh_head s.queue) mem) (sym idle) tt;
    consuming = inv.consuming;
    whole = inv.whole;
  }

  look_at_tail-Inv : s.consumer ≡ resting → Inv cap (record s { queue = refresh_tail s.queue })
  look_at_tail-Inv idle = record {
    mem = mem;
    bytes = bytes;
    allocated = inv.allocated;
    rep = refresh_tail-Represents rep;
    producing = inv.producing;
    consuming = subst (Granted (refresh_tail s.queue) bytes) (sym idle) tt;
    whole = inv.whole;
  }

  store-Inv :
      (src m m' : List ℕ)
      → s.producer ≡ admitted src
      → s.queue.buffer ≡ some m
      → copy_in m s.queue.mask s.queue.tail_idx src ≡ some m'
      → Inv cap (record s { queue = record (s.queue) { buffer = some m' }; producer = stored src })
  store-Inv src m m' at buffer written =
      subst
        (λ b.
          Inv cap
            (record s { queue = record (s.queue) { buffer = some b }; producer = stored src }))
        (some_inj (
          sym (copied_in rep src room)
          ∙ ap (λ b. copy_in b s.queue.mask s.queue.tail_idx src)
              (some_inj (sym rep.allocated ∙ buffer))
          ∙ written))
        (record {
          mem = stored_bytes rep src;
          bytes = bytes;
          allocated = refl;
          rep = stored-Represents rep src room;
          producing = (room, (beside rep src room).1);
          consuming = inv.consuming;
          whole = inv.whole;
        })
    where
      room : distance s.queue.tail_idx s.queue.head_cached_snapshot + length src ≤ cap
      room = subst (Admitted cap s.queue mem) at inv.producing

  advance_tail-Inv :
      (src : List ℕ)
      → s.producer ≡ stored src
      → Inv cap (record s {
        queue = record (s.queue) {
          tail_idx = add_size s.queue.tail_idx (length src);
          tail_cached = add_size s.queue.tail_idx (length src);
        };
        producer = ready;
        sent = s.sent ++ src;
      })
  advance_tail-Inv src at =
      let (room, there) = subst (Admitted cap s.queue mem) at inv.producing in
      record {
        mem = mem;
        bytes = bytes ++ src;
        allocated = inv.allocated;
        rep =
            moved_tail-Represents rep src room
              (subst (λ m. window cap m s.queue.tail_idx (length src) ≡ src) (sym same_mem) there);
        producing = tt;
        consuming = more_bytes s.consumer inv.consuming;
        whole = sym (append_assoc s.received bytes src) ∙ ap (λ xs. xs ++ src) inv.whole;
      }
    where
      more_bytes : (c : Consumer) → Granted s.queue bytes c → Granted s.queue (bytes ++ src) c
      more_bytes resting h = tt
      more_bytes (granted n) h = h
      more_bytes (copied out) (le, own) = (
        le,
        own
            ∙ sym (
                take-front (length out) bytes src
                  (omega (arith, le, rep.tail_lags, length-bytes rep))),
      )

  copy-Inv :
      (n : ℕ) (m out : List ℕ)
      → s.consumer ≡ granted n
      → s.queue.buffer ≡ some m
      → copy_out m s.queue.mask s.queue.head_idx n ≡ some out
      → Inv cap (record s { consumer = copied out })
  copy-Inv n m out at buffer read = record {
    mem = mem;
    bytes = bytes;
    allocated = inv.allocated;
    rep = rep;
    producing = inv.producing;
    consuming = (omega (arith, le, size), own ∙ ap (λ (k : ℕ). take k bytes) (sym size));
    whole = inv.whole;
  }
    where
      le : n ≤ distance s.queue.tail_cached_snapshot s.queue.head_idx
      le = subst (Granted s.queue bytes) at inv.consuming

      own : out ≡ take n bytes
      own = some_inj (
          sym read
          ∙ ap (λ b. copy_out b s.queue.mask s.queue.head_idx n)
              (some_inj (sym buffer ∙ rep.allocated))
          ∙ copied_out rep n (omega (arith, le, rep.tail_lags)))

      size : length out ≡ n
      size = ap length own ∙ omega (arith, length-take n bytes, length-bytes rep, le, rep.tail_lags)

  advance_head-Inv :
      (out : List ℕ)
      → s.consumer ≡ copied out
      → Inv cap (record s {
        queue = consumed s.queue (length out);
        consumer = resting;
        received = s.received ++ out;
      })
  advance_head-Inv out at =
      let (le, own) = subst (Granted s.queue bytes) at inv.consuming in
      record {
        mem = mem;
        bytes = drop (length out) bytes;
        allocated = inv.allocated;
        rep = consumed-Represents rep (length out) le;
        producing = inv.producing;
        consuming = tt;
        whole =
            append_assoc s.received out (drop (length out) bytes)
            ∙ ap (λ xs. s.received ++ (xs ++ drop (length out) bytes)) own
            ∙ ap (λ xs. s.received ++ xs) (take-append-drop (length out) bytes)
            ∙ inv.whole;
      }

step-Inv : {cap : ℕ} {s t : System} → Inv cap s → Step s t → Inv cap t
step-Inv inv (admit src at pos room) = record {
  mem = inv.mem;
  bytes = inv.bytes;
  allocated = inv.allocated;
  rep = inv.rep;
  producing = room_behind inv.rep src _ inv.rep.head_seen room;
  consuming = inv.consuming;
  whole = inv.whole;
}
step-Inv inv (look_at_head idle) = look_at_head-Inv inv idle
step-Inv inv (store src m m' at buffer written) = store-Inv inv src m m' at buffer written
step-Inv inv (advance_tail src at) = advance_tail-Inv inv src at
step-Inv inv (grant n at pos enough) = record {
  mem = inv.mem;
  bytes = inv.bytes;
  allocated = inv.allocated;
  rep = inv.rep;
  producing = inv.producing;
  consuming = seen inv.rep n enough;
  whole = inv.whole;
}
step-Inv inv (look_at_tail idle) = look_at_tail-Inv inv idle
step-Inv inv (copy n m out at buffer read) = copy-Inv inv n m out at buffer read
step-Inv inv (advance_head out at) = advance_head-Inv inv out at

-- In every interleaving of the producer and the consumer, each with its own snapshot of the other's
-- index, the bytes received and the bytes in the ring are the bytes sent, and the queue stands for those
-- in the ring; what the producer has stored and not yet published is in the ring behind them, and what
-- the consumer has copied out and not yet released is the first of them. So no byte is lost, doubled,
-- reordered, or overwritten before it is read.
pub interleaved_delivery : {cap : ℕ} {s t : System} → Inv cap s → Steps s t → Inv cap t
interleaved_delivery inv here = inv
interleaved_delivery inv (then steps step) = step-Inv (interleaved_delivery inv steps) step
