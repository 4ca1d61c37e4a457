-- ===== src/Spmc/Concurrent/Delivery/Consuming.antt =====
-- The steps of the consumers keep the invariant.
use femtolog.Prelude.{
  ℕ, ◌+◌, ◌%◌, ◌<◌, List, [], ◌∷◌, ◌++◌, some, ◌≡◌, ap, ◌∙◌, subst, take, drop, true, arith,
}
use femtolog.Ring.{copy_out}
use femtolog.Ring.Window.{window-mod}
use femtolog.Ring.Copy.{copy_out_lem}
use femtolog.Spmc.{claim, short_of}
use femtolog.Spmc.Concurrent.{Phase, ticketed, Call, System}
use femtolog.Spmc.Concurrent.Tiles.{
  Tiles, Place, Tiles-Place, Tiles-head, Tiles-ticket, total, with_phase, IsFine,
}
use femtolog.Spmc.Concurrent.Delivery.{
  Inv, Within, length-bytes, cap_bounds, wrapped_position, window_part,
}

module _ {cap : ℕ} {s : System} (inv : Inv cap s) where
  open inv use {mem, bytes, ring}

  pub take_ticket-Inv :
      (n : ℕ)
      → 0 < n
      → Within s n
      → Inv cap (record s {
        queue = claim s.queue n;
        calls =
            s.calls ++ (record { ticket = s.queue.head_idx; data_size = n; phase = ticketed } ∷ []);
      })
  take_ticket-Inv n pos there = record {
    mem = mem;
    bytes = bytes;
    allocated = inv.allocated;
    ring = record {
      exponent = ring.exponent;
      small = ring.small;
      power = ring.power;
      capacity = ring.capacity;
      mask = ring.mask;
      storage = ring.storage;
      tail_word = ring.tail_word;
      commit_word = ring.commit_word;
      used = ring.used;
      holds = ring.holds;
    };
    pending = inv.pending;
    head_word = omega arith;
    tiles = Tiles-ticket s.queue.commit_idx s.calls bytes s.queue.head_idx n inv.tiles pos (
        omega (
          arith,
          Tiles-head s.queue.commit_idx s.calls bytes s.queue.head_idx ring.commit_word inv.tiles,
          length-bytes ring,
          cap_bounds ring,
          ring.used,
          ring.tail_word,
          there,
        ));
    whole = inv.whole;
  }

module _ {cap : ℕ} {s : System} (inv : Inv cap s) (front back : List Call) (call : Call)
    (under_way : s.calls ≡ front ++ (call ∷ back)) where
  open inv use {mem, bytes, ring}

  pub place : Place s.queue.commit_idx front call back bytes s.queue.head_idx
  place =
      Tiles-Place s.queue.commit_idx front call back bytes s.queue.head_idx ring.commit_word
        (subst (λ calls. Tiles s.queue.commit_idx calls bytes s.queue.head_idx) under_way inv.tiles)

  -- The bytes of the call, as part of the ring's.
  abbrev own : List ℕ
  own = take call.data_size (drop (total front) bytes)

  pub phase-Inv :
      (p : Phase)
      → IsFine p own
      → Inv cap (record s { calls = front ++ (with_phase call p ∷ back) })
  phase-Inv p fine = record {
    mem = mem;
    bytes = bytes;
    allocated = inv.allocated;
    ring = ring;
    pending = inv.pending;
    head_word = inv.head_word;
    tiles = place.becomes p fine;
    whole = inv.whole;
  }

  -- The test for enough data succeeds.
  pub found : short_of s.queue call.ticket call.data_size ≡ true → ⊥
  found short = ground (
    arith,
    place.at,
    place.inside,
    length-bytes ring,
    cap_bounds ring,
    ring.used,
    ring.tail_word,
    ring.commit_word,
  )

  pub copied_out : copy_out mem s.queue.mask call.ticket call.data_size ≡ some own
  copied_out =
      rw
        (
          ring.mask,
          ring.power,
          copy_out_lem ring.exponent ring.small mem (omega (arith, ring.storage, ring.power))
              call.ticket call.data_size
              (omega (arith, place.inside, length-bytes ring, ring.used, ring.power)),
        )
        (ap some (
          rw (← ring.power) (
            window-mod cap mem call.ticket (s.queue.commit_idx + total front) call.data_size (
              ap (λ (t : ℕ). t % cap) place.at
              ∙ wrapped_position ring (s.queue.commit_idx + total front))
            ∙ window_part ring (total front) call.data_size place.inside)))
