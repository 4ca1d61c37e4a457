-- ===== src/Spsc/Invariant.antt =====
-- When a queue object stands for a sequence of bytes: the representation invariant of `SpscQueue`.
use femtolog.Prelude.{ℕ, ◌+◌, ◌-◌, ◌%◌, ◌^◌, ◌≤◌, ◌<◌, List, some, ◌≡◌, length, arith, ap, sym, ◌∙◌}
use femtolog.Word.{mod_size-mod, two_pow-le, two_pow_pos}
use femtolog.Ring.Window.{window, length-window}
use femtolog.Memory.{cache_size}
use femtolog.Spsc.{Spsc, distance, refresh_head, refresh_tail}

-- The snapshots lag behind: the producer's view of the head is not past the head, and the
-- consumer's view of the tail is not past the tail.
pub record Represents (cap : ℕ) (q : Spsc) (bytes : List ℕ) : Type 0 where
  pub mem : List ℕ
  pub exponent : ℕ
  pub positive : 0 < exponent
  pub small : exponent < 64
  pub power : cap ≡ 2 ^ exponent
  pub allocated : q.buffer ≡ some mem
  pub capacity : q.capacity ≡ cap
  pub mask : q.mask ≡ cap - 1
  pub storage : length mem ≡ q.allocation_size
  pub slack : q.allocation_size ≡ cap + cache_size
  pub head_word : q.head_idx < 2 ^ 64
  pub tail_word : q.tail_idx < 2 ^ 64
  pub head_snapshot_word : q.head_cached_snapshot < 2 ^ 64
  pub tail_snapshot_word : q.tail_cached_snapshot < 2 ^ 64
  pub used : distance q.tail_idx q.head_idx ≤ cap
  pub head_seen : distance q.tail_idx q.head_cached_snapshot ≤ cap
  pub head_lags : distance q.tail_idx q.head_idx ≤ distance q.tail_idx q.head_cached_snapshot
  pub tail_lags : distance q.tail_cached_snapshot q.head_idx ≤ distance q.tail_idx q.head_idx
  pub tail_mirror : q.tail_cached ≡ q.tail_idx
  pub head_mirror : q.head_cached ≡ q.head_idx
  pub holds : window cap mem q.head_idx (distance q.tail_idx q.head_idx) ≡ bytes

module _ {cap : ℕ} {q : Spsc} {bytes : List ℕ} (r : Represents cap q bytes) where
  open r use {exponent, small, power, head_word, tail_word, used, holds}

  pub length-bytes : length bytes ≡ distance q.tail_idx q.head_idx
  length-bytes =
      sym (ap length holds) ∙ length-window cap r.mem q.head_idx (distance q.tail_idx q.head_idx)

  pub cap_bounds : (0 < cap) × (cap ≤ 2 ^ 63)
  cap_bounds = (
    omega (arith, two_pow_pos exponent),
    omega (arith, two_pow-le {j = exponent} {k = 63} (omega arith)),
  )

  -- Positions do not see the wrap-around of an index.
  pub wrapped_position : (a : ℕ) → a % 2 ^ 64 % cap ≡ a % cap
  wrapped_position a =
      ap (λ (c : ℕ). a % 2 ^ 64 % c) power
      ∙ mod_size-mod {k = exponent} a (omega arith)
      ∙ ap (λ (c : ℕ). a % c) (sym power)

  pub tail_position : q.tail_idx % cap ≡ (q.head_idx + length bytes) % cap
  tail_position =
      ap (λ (t : ℕ). t % cap) (omega (arith, length-bytes))
      ∙ wrapped_position (q.head_idx + length bytes)

  unfoldable pub refresh_head-Represents : Represents cap (refresh_head q) bytes
  refresh_head-Represents = record {
    mem = r.mem;
    exponent = exponent;
    positive = r.positive;
    small = small;
    power = power;
    allocated = r.allocated;
    capacity = r.capacity;
    mask = r.mask;
    storage = r.storage;
    slack = r.slack;
    head_word = head_word;
    tail_word = tail_word;
    head_snapshot_word = head_word;
    tail_snapshot_word = r.tail_snapshot_word;
    used = used;
    head_seen = used;
    head_lags = omega arith;
    tail_lags = r.tail_lags;
    tail_mirror = r.tail_mirror;
    head_mirror = r.head_mirror;
    holds = holds;
  }

  unfoldable pub refresh_tail-Represents : Represents cap (refresh_tail q) bytes
  refresh_tail-Represents = record {
    mem = r.mem;
    exponent = exponent;
    positive = r.positive;
    small = small;
    power = power;
    allocated = r.allocated;
    capacity = r.capacity;
    mask = r.mask;
    storage = r.storage;
    slack = r.slack;
    head_word = head_word;
    tail_word = tail_word;
    head_snapshot_word = r.head_snapshot_word;
    tail_snapshot_word = tail_word;
    used = used;
    head_seen = r.head_seen;
    head_lags = r.head_lags;
    tail_lags = omega arith;
    tail_mirror = r.tail_mirror;
    head_mirror = r.head_mirror;
    holds = holds;
  }
