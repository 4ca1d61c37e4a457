-- ===== src/Spmc/Concurrent/Delivery/Committing.antt =====
-- The step that moves the commit index keeps the invariant.
use femtolog.Prelude.{
  ℕ, ◌+◌, ◌-◌, ◌%◌, ◌≤◌, ◌<◌, List, [], ◌∷◌, ◌++◌, ◌≡◌, refl, sym, ap, ◌∙◌, subst, length, take,
  drop, arith, append_assoc, take-append-drop, length-drop, take_all,
}
use femtolog.Word.{add_size}
use femtolog.Ring.Window.{window, window-mod}
use femtolog.Spsc.{distance}
use femtolog.Spmc.{Spmc}
use femtolog.Spmc.Concurrent.{copied, Call, Producer, ready, admitted, stored, System}
use femtolog.Spmc.Concurrent.Tiles.{Tiles}
use femtolog.Spmc.Concurrent.Delivery.{
  Pending, Inv, length-bytes, cap_bounds, wrapped_position, window_part,
}
use femtolog.Spmc.Concurrent.Delivery.Consuming.{place}

-- Room stays room when the commit index moves on.
Pending-less :
    (cap : ℕ) (q q' : Spmc) (mem : List ℕ) (p : Producer)
    → q.tail_idx ≡ q'.tail_idx
    → distance q'.tail_idx q'.commit_idx ≤ distance q.tail_idx q.commit_idx
    → Pending cap q mem p
    → Pending cap q' mem p
Pending-less cap q q' mem ready same less h = tt
Pending-less cap q q' mem (admitted src) same less h = omega (arith, h)
Pending-less cap q q' mem (stored src) same less (room, there) =
    (omega arith, subst (λ (t : ℕ). window cap mem t (length src) ≡ src) same there)

-- The commit index moves over the first call, whose bytes are the first of the ring.
first-Inv :
    {cap : ℕ} {s : System} (inv : Inv cap s) (back : List Call) (ticket n : ℕ) (out : List ℕ)
    → s.calls ≡ record { ticket = ticket; data_size = n; phase = copied out } ∷ back
    → Inv cap (record s {
      queue = record (s.queue) { commit_idx = add_size ticket n };
      calls = back;
      returned = s.returned ++ out;
    })
first-Inv {cap} {s} inv back ticket n out under_way = record {
  mem = mem;
  bytes = drop n bytes;
  allocated = inv.allocated;
  ring = record {
    exponent = ring.exponent;
    small = ring.small;
    power = ring.power;
    capacity = ring.capacity;
    mask = ring.mask;
    storage = ring.storage;
    tail_word = ring.tail_word;
    commit_word = omega arith;
    used = omega (arith, fewer, ring.used);
    holds =
        ap (window cap mem (add_size ticket n)) fewer
        ∙ window-mod cap mem (add_size ticket n) (s.queue.commit_idx + n) _
            (wrapped_position ring (ticket + n) ∙ ap (λ (t : ℕ). (t + n) % cap) at)
        ∙ window_part ring n (distance s.queue.tail_idx s.queue.commit_idx - n)
            (omega (arith, tiled, length-bytes ring))
        ∙ take_all (distance s.queue.tail_idx s.queue.commit_idx - n) (drop n bytes)
            (omega (arith, length-drop n bytes, length-bytes ring));
  };
  pending =
      Pending-less cap s.queue (record (s.queue) { commit_idx = add_size ticket n }) mem s.producer
        refl (omega (arith, fewer)) inv.pending;
  head_word = inv.head_word;
  tiles =
      subst (λ (t : ℕ). Tiles (add_size t n) back (drop n bytes) s.queue.head_idx) (sym at) rest;
  whole =
      append_assoc s.returned out (drop n bytes)
      ∙ ap (λ xs. s.returned ++ (xs ++ drop n bytes)) fine
      ∙ ap (λ xs. s.returned ++ xs) (take-append-drop n bytes)
      ∙ inv.whole;
}
  where
    open inv use {mem, bytes, ring}

    tiled :
        (ticket ≡ s.queue.commit_idx)
        × (0 < n)
        × (n ≤ length bytes)
        × (out ≡ take n bytes)
        × Tiles (add_size s.queue.commit_idx n) back (drop n bytes) s.queue.head_idx
    tiled =
        subst (λ calls. Tiles s.queue.commit_idx calls bytes s.queue.head_idx) under_way inv.tiles

    at : ticket ≡ s.queue.commit_idx
    at = tiled.0

    fine : out ≡ take n bytes
    fine = tiled.3

    rest : Tiles (add_size s.queue.commit_idx n) back (drop n bytes) s.queue.head_idx
    rest = tiled.4

    fewer :
        distance s.queue.tail_idx (add_size ticket n)
        ≡ distance s.queue.tail_idx s.queue.commit_idx - n
    fewer = omega (
      arith,
      tiled,
      length-bytes ring,
      cap_bounds ring,
      ring.used,
      ring.tail_word,
      ring.commit_word,
    )

-- The call whose ticket the commit index has reached is the first one.
pub advance_commit-Inv :
    {cap : ℕ} {s : System} (inv : Inv cap s) (front back : List Call) (ticket n : ℕ) (out : List ℕ)
    → s.calls ≡ front ++ (record { ticket = ticket; data_size = n; phase = copied out } ∷ back)
    → s.queue.commit_idx ≡ ticket
    → Inv cap (record s {
      queue = record (s.queue) { commit_idx = add_size ticket n };
      calls = front ++ back;
      returned = s.returned ++ out;
    })
advance_commit-Inv inv [] back ticket n out under_way at = first-Inv inv back ticket n out under_way
advance_commit-Inv {s} inv (first ∷ front) back ticket n out under_way at = absurd (
    let call : Call = record { ticket = ticket; data_size = n; phase = copied out } in
    let later = place inv (first ∷ front) back call under_way in
    let positive =
      (subst (λ calls. Tiles s.queue.commit_idx calls inv.bytes s.queue.head_idx) under_way
        inv.tiles).1 in
    omega (
      arith,
      at,
      later.at,
      later.inside,
      positive,
      length-bytes inv.ring,
      cap_bounds inv.ring,
      inv.ring.used,
      inv.ring.commit_word,
    ))
