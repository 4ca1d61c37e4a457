-- ===== src/Spsc/Bulk.antt =====
-- The bulk operations do what one operation on the concatenation of the pieces does.
use femtolog.Prelude.{
  ℕ, ◌+◌, ◌-◌, ◌^◌, ◌≤◌, ◌<◌, List, [], ◌∷◌, Option, some, ◌≡◌, refl, sym, ap, ◌∙◌, subst, length,
  map, drop, ltb, ==_iff, ◌==◌, Bool-cases, inl, inr, arith, length-append, if◌then◌else◌,
}
use mathlib.Core.List.{flatten}
use native.Mathlib.Nat.{add-zero}
use femtolog.Ring.{copy_in, copy_in_all, copy_out_all}
use femtolog.Ring.Window.{sum, pieces, windows-pieces}
use femtolog.Ring.Copy.{copy_in_lem, copy_in_all_lem, copy_out_all_lem}
use femtolog.Spsc.{
  Status, ok, uninitialized, size_is_zero, Spsc, distance, lacks_room, refresh_head, refresh_tail,
  with_buffer, total_from, commit_enqueue, enqueue_in, enqueue_bytes, commit_enqueue_bulk,
  enqueue_bulk_in, enqueue_bulk, commit_dequeue_bulk, dequeue_bulk_in, dequeue_bulk,
}
use femtolog.Spsc.Invariant.{Represents, refresh_tail-Represents}
use femtolog.Spsc.Enqueue.{room_behind}
use femtolog.Spsc.Dequeue.{consumed, consumed-Represents, short, seen, not_short}
use femtolog.Spsc.Fifo

total_from-sum :
    (acc : ℕ) (sizes : List ℕ) → acc + sum sizes < 2 ^ 64 → total_from acc sizes ≡ acc + sum sizes
total_from-sum acc [] h = omega arith
total_from-sum acc (n ∷ sizes) h =
    ap (λ (k : ℕ). total_from k sizes) (omega arith)
    ∙ total_from-sum (acc + n) sizes (omega arith)
    ∙ omega arith

length-flatten : (srcs : List (List ℕ)) → length (flatten srcs) ≡ sum (map length srcs)
unfolding flatten
length-flatten [] = refl
length-flatten (src ∷ srcs) = omega (arith, length-append src (flatten srcs), length-flatten srcs)

flatten-nil : (srcs : List (List ℕ)) → length srcs ≡ 0 → flatten srcs ≡ []
unfolding flatten
flatten-nil [] h = refl
flatten-nil (src ∷ srcs) h = absurd (omega arith)

enqueue_in-nil : (q : Spsc) (mem : List ℕ) → enqueue_in q mem [] ≡ some (size_is_zero, q)
unfolding enqueue_in
enqueue_in-nil q mem = refl

dequeue_bulk-nil :
    (bytes sizes : List ℕ)
    → length sizes ≡ 0
    → Fifo.dequeue_bulk bytes sizes ≡ (size_is_zero, [], bytes)
unfolding Fifo.dequeue_bulk
dequeue_bulk-nil bytes [] h = refl
dequeue_bulk-nil bytes (n ∷ sizes) h = absurd (omega arith)

module _ {cap : ℕ} {q : Spsc} {bytes : List ℕ} (r : Represents cap q bytes) (srcs : List (List ℕ))
    (addressable : length (flatten srcs) < 2 ^ 64) where
  open r use {mem, exponent, small, power}

  total-length : total_from 0 (map length srcs) ≡ length (flatten srcs)
  total-length =
      total_from-sum 0 (map length srcs) (omega (arith, length-flatten srcs))
      ∙ omega (arith, length-flatten srcs)

  copies :
      (idx : ℕ)
      → length (flatten srcs) ≤ cap
      → copy_in_all mem (cap - 1) idx 0 srcs ≡ copy_in mem (cap - 1) idx (flatten srcs)
  copies idx room = rw (
    power,
    copy_in_all_lem exponent small idx mem 0 srcs (omega (arith, r.storage, r.slack))
        (omega (arith, length-flatten srcs)),
    copy_in_lem exponent small mem (omega (arith, r.storage, r.slack)) idx (flatten srcs)
        (omega arith),
    add-zero,
  )

  same_copy :
      (q' : Spsc)
      → q'.mask ≡ cap - 1
      → length (flatten srcs) ≤ cap
      → commit_enqueue_bulk q' mem srcs (length (flatten srcs))
        ≡ commit_enqueue q' mem (flatten srcs)
  unfolding commit_enqueue_bulk commit_enqueue
  same_copy q' e room = rw (e, copies q'.tail_idx room)

  enqueue_bulk_in-enqueue_in :
      enqueue_bulk_in q mem srcs (length (flatten srcs)) ≡ enqueue_in q mem (flatten srcs)
  unfolding enqueue_bulk_in enqueue_in
  enqueue_bulk_in-enqueue_in =
      elim (Bool-cases (lacks_room q q.head_cached_snapshot (length (flatten srcs)))) [
        | inr enough ↦ rw (
          enough,
          same_copy q r.mask (omega (arith, room_behind r (flatten srcs) _ r.head_seen enough)),
        )
        | inl stale ↦
            rw stale (elim (Bool-cases (lacks_room q q.head_idx (length (flatten srcs)))) [
              | inl full ↦ rw full
              | inr enough ↦ rw (
                enough,
                same_copy (refresh_head q) r.mask
                    (omega (arith, room_behind r (flatten srcs) _ r.used enough)),
              )
            ])
      ]

-- On a queue that stands for some bytes, `enqueue_bulk` does exactly what `enqueue_bytes` does on
-- the concatenation of the pieces, whose length fits a `std::size_t`.
pub enqueue_bulk-enqueue_bytes :
    {cap : ℕ} {q : Spsc} {bytes : List ℕ}
    → Represents cap q bytes
    → (srcs : List (List ℕ)) → length (flatten srcs) < 2 ^ 64
    → enqueue_bulk q srcs ≡ enqueue_bytes q (flatten srcs)
unfolding enqueue_bulk enqueue_bytes
enqueue_bulk-enqueue_bytes {q} r srcs addressable =
    ap
      (λ b. with_buffer b (some (uninitialized, q)) λ mem.
        if length srcs == 0
        then some (size_is_zero, q)
        else enqueue_bulk_in q mem srcs (total_from 0 (map length srcs)))
      r.allocated
    ∙ body
    ∙ sym (
        ap (λ b. with_buffer b (some (uninitialized, q)) (λ mem. enqueue_in q mem (flatten srcs)))
          r.allocated)
  where
    body :
        (if length srcs == 0
          then some (size_is_zero, q)
          else enqueue_bulk_in q r.mem srcs (total_from 0 (map length srcs)))
        ≡ enqueue_in q r.mem (flatten srcs)
    body = elim (Bool-cases (length srcs == 0)) [
      | inl nothing ↦
          rw (nothing, flatten-nil srcs ((==_iff _ 0).0 nothing), enqueue_in-nil q r.mem)
      | inr pieces ↦
          rw (pieces, total-length r srcs addressable)
            (enqueue_bulk_in-enqueue_in r srcs addressable)
    ]

-- A bulk call that hands out `outs` with status `s`, and leaves the queue standing for `rest`.
abbrev pub DequeuedBulk :
    ℕ → Option (Status × List (List ℕ) × Spsc) → Status × List (List ℕ) × List ℕ → Type 0
DequeuedBulk cap result (s, outs, rest) =
    (q' : Spsc) × (result ≡ some (s, outs, q')) × Represents cap q' rest

module _ {cap : ℕ} {q : Spsc} {bytes : List ℕ} (r : Represents cap q bytes) (sizes : List ℕ) where
  open r use {mem, exponent, small, power}

  copied_pieces :
      sum sizes ≤ distance q.tail_idx q.head_idx
      → copy_out_all mem q.mask q.head_idx 0 sizes ≡ some (pieces bytes sizes)
  copied_pieces enough =
      rw
        (
          r.mask,
          power,
          copy_out_all_lem exponent small q.head_idx mem 0 sizes (omega (arith, r.storage, r.slack))
              (omega arith),
          add-zero,
        )
        (ap some (
          rw (← power) (
            windows-pieces cap mem q.head_idx (distance q.tail_idx q.head_idx) sizes enough
            ∙ ap (λ b. pieces b sizes) r.holds)))

  commit_dequeue_bulk_lem :
      sum sizes ≤ distance q.tail_cached_snapshot q.head_idx
      → DequeuedBulk cap
          (commit_dequeue_bulk q mem sizes (sum sizes))
          (ok, pieces bytes sizes, drop (sum sizes) bytes)
  unfolding commit_dequeue_bulk
  commit_dequeue_bulk_lem enough = (
    consumed q (sum sizes),
    rw (copied_pieces (omega (arith, r.tail_lags))),
    consumed-Represents r (sum sizes) enough,
  )

module _ {cap : ℕ} {q : Spsc} {bytes : List ℕ} (r : Represents cap q bytes) (sizes : List ℕ) where
  open r use {mem}

  dequeue_bulk_in_lem :
      DequeuedBulk cap (dequeue_bulk_in q mem sizes (sum sizes)) (Fifo.dequeue_bulk bytes sizes)
  unfolding dequeue_bulk_in Fifo.dequeue_bulk refresh_tail-Represents
  dequeue_bulk_in_lem = elim (Bool-cases (sum sizes == 0)) [
    | inl nothing ↦ rw nothing (q, refl, r)
    | inr positive ↦
        rw positive
          (elim (Bool-cases (ltb (distance q.tail_cached_snapshot q.head_idx) (sum sizes))) [
            | inr enough ↦
                rw
                  (
                    enough,
                    not_short r (sum sizes) (omega (arith, r.tail_lags, seen r (sum sizes) enough)),
                  )
                  (commit_dequeue_bulk_lem r sizes (seen r (sum sizes) enough))
            | inl stale ↦
                rw (stale, ← short r (sum sizes))
                  (elim (Bool-cases (ltb (distance q.tail_idx q.head_idx) (sum sizes))) [
                    | inl lacking ↦ rw lacking (refresh_tail q, refl, refresh_tail-Represents r)
                    | inr enough ↦
                        rw enough
                          (commit_dequeue_bulk_lem (refresh_tail-Represents r) sizes (ground arith))
                  ])
          ])
  ]

-- On a queue that stands for `bytes`, `dequeue_bulk` with sizes whose sum fits a `std::size_t`
-- returns the status of the bounded sequence, hands out the front of `bytes` cut into pieces of
-- those sizes, all or nothing, and leaves the queue standing for the rest.
pub dequeue_bulk_refines :
    {cap : ℕ} {q : Spsc} {bytes : List ℕ}
    → Represents cap q bytes
    → (sizes : List ℕ) → sum sizes < 2 ^ 64
    → DequeuedBulk cap (dequeue_bulk q sizes) (Fifo.dequeue_bulk bytes sizes)
unfolding dequeue_bulk
dequeue_bulk_refines {cap} {q} {bytes} r sizes addressable =
    subst (λ result. DequeuedBulk cap result (Fifo.dequeue_bulk bytes sizes))
      (sym (
        ap
          (λ b. with_buffer b (some (uninitialized, [], q)) λ mem.
            if length sizes == 0
            then some (size_is_zero, [], q)
            else dequeue_bulk_in q mem sizes (total_from 0 sizes))
          r.allocated))
      body
  where
    total : total_from 0 sizes ≡ sum sizes
    total = total_from-sum 0 sizes (omega arith) ∙ omega arith

    body :
        DequeuedBulk cap
          (if length sizes == 0
            then some (size_is_zero, [], q)
            else dequeue_bulk_in q r.mem sizes (total_from 0 sizes))
          (Fifo.dequeue_bulk bytes sizes)
    body = elim (Bool-cases (length sizes == 0)) [
      | inl nothing ↦
          rw (nothing, dequeue_bulk-nil bytes sizes ((==_iff _ 0).0 nothing)) (q, refl, r)
      | inr some_sizes ↦ rw (some_sizes, total) (dequeue_bulk_in_lem r sizes)
    ]
