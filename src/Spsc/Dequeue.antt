-- ===== src/Spsc/Dequeue.antt =====
-- `dequeue_bytes` and `peek_bytes` against the bounded byte sequence.
use femtolog.Prelude.{
  ℕ, ◌+◌, ◌-◌, ◌≤◌, List, [], ◌++◌, Option, some, ◌≡◌, refl, sym, ap, ◌∙◌, subst, length, take,
  drop, ltb, ◌==◌, Bool-cases, false, inl, inr, arith, take-eq_of_append, drop-eq_of_append,
}
use femtolog.Word.{add_size}
use femtolog.Ring.{copy_out}
use femtolog.Ring.Window.{window, window-add, window-mod, length-window}
use femtolog.Ring.Copy.{copy_out_lem}
use femtolog.Spsc.{
  Status, ok, uninitialized, Spsc, distance, refresh_tail, commit_dequeue, dequeue_in,
  dequeue_bytes, peek_in, peek_bytes, with_buffer,
}
use femtolog.Spsc.Invariant.{
  Represents, length-bytes, cap_bounds, wrapped_position, refresh_tail-Represents,
}
use femtolog.Spsc.Fifo

-- A call that hands out `out` with status `s`, and leaves the queue standing for `rest`.
abbrev pub Dequeued : ℕ → Option (Status × List ℕ × Spsc) → Status × List ℕ × List ℕ → Type 0
Dequeued cap result (s, out, rest) =
    (q' : Spsc) × (result ≡ some (s, out, q')) × Represents cap q' rest

-- The queue with its head `n` bytes further.
abbrev pub consumed : Spsc → ℕ → Spsc
consumed q n = record q { head_idx = add_size q.head_idx n; head_cached = add_size q.head_idx n }

module _ {cap : ℕ} {q : Spsc} {bytes : List ℕ} (r : Represents cap q bytes) (n : ℕ) where
  open r use {mem, exponent, small, power}

  split_window :
      n ≤ distance q.tail_idx q.head_idx
      → window cap mem q.head_idx n
          ++ window cap mem (q.head_idx + n) (distance q.tail_idx q.head_idx - n)
        ≡ bytes
  split_window enough =
      sym (window-add cap mem q.head_idx n (distance q.tail_idx q.head_idx - n))
      ∙ ap (window cap mem q.head_idx) (omega arith)
      ∙ r.holds

  pub front-take : n ≤ distance q.tail_idx q.head_idx → window cap mem q.head_idx n ≡ take n bytes
  front-take enough =
      take-eq_of_append n (window cap mem q.head_idx n) _ (length-window cap mem q.head_idx n)
        (split_window enough)

  back-drop :
      n ≤ distance q.tail_idx q.head_idx
      → window cap mem (q.head_idx + n) (distance q.tail_idx q.head_idx - n) ≡ drop n bytes
  back-drop enough =
      drop-eq_of_append n (window cap mem q.head_idx n) _ (length-window cap mem q.head_idx n)
        (split_window enough)

  pub copied_out :
      n ≤ distance q.tail_idx q.head_idx → copy_out mem q.mask q.head_idx n ≡ some (take n bytes)
  copied_out enough =
      rw
        (
          r.mask,
          power,
          copy_out_lem exponent small mem (omega (arith, r.storage, r.slack)) q.head_idx n
              (omega arith),
        )
        (ap some (rw (← power) (front-take enough)))

  pub consumed-Represents :
      n ≤ distance q.tail_cached_snapshot q.head_idx → Represents cap (consumed q n) (drop n bytes)
  consumed-Represents enough = record {
    mem = mem;
    exponent = exponent;
    positive = r.positive;
    small = small;
    power = power;
    allocated = r.allocated;
    capacity = r.capacity;
    mask = r.mask;
    storage = r.storage;
    slack = r.slack;
    head_word = omega arith;
    tail_word = r.tail_word;
    head_snapshot_word = r.head_snapshot_word;
    tail_snapshot_word = r.tail_snapshot_word;
    used = omega (arith, cap_bounds r);
    head_seen = r.head_seen;
    head_lags = omega (arith, cap_bounds r);
    tail_lags = omega (arith, cap_bounds r);
    tail_mirror = r.tail_mirror;
    head_mirror = refl;
    holds =
        window-mod cap mem (add_size q.head_idx n) (q.head_idx + n) _
          (wrapped_position r (q.head_idx + n))
        ∙ ap (window cap mem (q.head_idx + n)) (omega (arith, cap_bounds r))
        ∙ back-drop (omega arith);
  }

  commit_dequeue_lem :
      n ≤ distance q.tail_cached_snapshot q.head_idx
      → Dequeued cap (commit_dequeue q mem n) (ok, take n bytes, drop n bytes)
  unfolding commit_dequeue
  commit_dequeue_lem enough =
      (consumed q n, rw (copied_out (omega arith)), consumed-Represents enough)

module _ {cap : ℕ} {q : Spsc} {bytes : List ℕ} (r : Represents cap q bytes) (n : ℕ) where
  open r use {mem}

  pub seen :
      ltb (distance q.tail_cached_snapshot q.head_idx) n ≡ false
      → n ≤ distance q.tail_cached_snapshot q.head_idx
  seen enough = ground arith

  pub not_short : n ≤ distance q.tail_idx q.head_idx → ltb (length bytes) n ≡ false
  not_short enough = ground (arith, length-bytes r)

  pub short : ltb (distance q.tail_idx q.head_idx) n ≡ ltb (length bytes) n
  short = ap (λ (k : ℕ). ltb k n) (sym (length-bytes r))

  dequeue_in_lem : Dequeued cap (dequeue_in q mem n) (Fifo.dequeue bytes n)
  unfolding dequeue_in Fifo.dequeue refresh_tail-Represents
  dequeue_in_lem = elim (Bool-cases (n == 0)) [
    | inl nothing ↦ rw nothing (q, refl, r)
    | inr positive ↦
        rw positive (elim (Bool-cases (ltb (distance q.tail_cached_snapshot q.head_idx) n)) [
          | inr enough ↦
              rw (enough, not_short (omega (arith, r.tail_lags, cap_bounds r, seen enough)))
                (commit_dequeue_lem r n (seen enough))
          | inl stale ↦
              rw (stale, ← short)
                (elim (Bool-cases (ltb (distance q.tail_idx q.head_idx) n)) [
                  | inl lacking ↦ rw lacking (refresh_tail q, refl, refresh_tail-Represents r)
                  | inr enough ↦
                      rw enough (commit_dequeue_lem (refresh_tail-Represents r) n (ground arith))
                ])
        ])
  ]

  peek_in_lem : peek_in q mem n ≡ some (Fifo.peek bytes n)
  unfolding peek_in Fifo.peek
  peek_in_lem = elim (Bool-cases (n == 0)) [
    | inl nothing ↦ rw nothing
    | inr positive ↦
        rw (positive, ← short)
          (elim (Bool-cases (ltb (distance q.tail_idx q.head_idx) n)) [
            | inl lacking ↦ rw lacking
            | inr enough ↦ rw (enough, copied_out r n (ground arith))
          ])
  ]

-- In every state that stands for `bytes`, `dequeue_bytes` returns the status and the bytes of the
-- bounded byte sequence, and leaves the queue standing for the rest. It never reads outside the
-- buffer.
pub dequeue_bytes_refines :
    {cap : ℕ} {q : Spsc} {bytes : List ℕ}
    → Represents cap q bytes
    → (n : ℕ) → Dequeued cap (dequeue_bytes q n) (Fifo.dequeue bytes n)
unfolding dequeue_bytes
dequeue_bytes_refines {cap} {q} {bytes} r n =
    subst (λ result. Dequeued cap result (Fifo.dequeue bytes n))
      (sym (
        ap (λ b. with_buffer b (some (uninitialized, [], q)) (λ mem. dequeue_in q mem n))
          r.allocated))
      (dequeue_in_lem r n)

-- `peek_bytes` returns what `dequeue_bytes` would, and leaves the queue alone.
pub peek_bytes_refines :
    {cap : ℕ} {q : Spsc} {bytes : List ℕ}
    → Represents cap q bytes
    → (n : ℕ) → peek_bytes q n ≡ some (Fifo.peek bytes n)
unfolding peek_bytes
peek_bytes_refines {q} r n =
    ap (λ b. with_buffer b (some (uninitialized, [])) (λ mem. peek_in q mem n)) r.allocated
    ∙ peek_in_lem r n
