-- ===== src/Spmc/Concurrent/Delivery.antt =====
-- As long as no consumer asks for more than is there, every byte is returned once, in order.
pub mod Producing
pub mod Consuming
pub mod Committing
pub mod Interleaving
use femtolog.Prelude.{
  ℕ, ◌+◌, ◌-◌, ◌%◌, ◌^◌, ◌≤◌, ◌<◌, List, [], ◌∷◌, ◌++◌, some, ◌≡◌, refl, sym, ap, ap₂, ◌∙◌, length,
  take, drop, arith, take-eq_of_append, drop-eq_of_append,
}
use femtolog.Word.{mod_size-mod, two_pow-le, two_pow_pos}
use femtolog.Ring.Window.{window, window-add, window-mod, length-window}
use femtolog.Spsc.{distance}
use femtolog.Spmc.{Spmc}
use femtolog.Spmc.Concurrent.{Call, Producer, ready, admitted, stored, System}
use femtolog.Spmc.Concurrent.Tiles.{Tiles}

-- What the producer may rely on: room behind the tail, and then its bytes there.
abbrev pub Pending : ℕ → Spmc → List ℕ → Producer → Type 0
Pending cap q mem ready = Unit
Pending cap q mem (admitted src) = distance q.tail_idx q.commit_idx + length src ≤ cap
Pending cap q mem (stored src) =
    (distance q.tail_idx q.commit_idx + length src ≤ cap)
    × (window cap mem q.tail_idx (length src) ≡ src)

-- The ring and its indices: the bytes from the commit index to the tail.
pub record Holds (cap : ℕ) (q : Spmc) (mem bytes : List ℕ) : Type 0 where
  pub exponent : ℕ
  pub small : exponent < 64
  pub power : cap ≡ 2 ^ exponent
  pub capacity : q.capacity ≡ cap
  pub mask : q.mask ≡ cap - 1
  pub storage : cap ≤ length mem
  pub tail_word : q.tail_idx < 2 ^ 64
  pub commit_word : q.commit_idx < 2 ^ 64
  pub used : distance q.tail_idx q.commit_idx ≤ cap
  pub holds : window cap mem q.commit_idx (distance q.tail_idx q.commit_idx) ≡ bytes

-- The bytes returned and those in the ring are the bytes sent; the calls under way have tickets for the
-- bytes in the ring, one behind the other, and what they have copied is their own.
pub record Inv (cap : ℕ) (s : System) : Type 0 where
  pub mem : List ℕ
  pub bytes : List ℕ
  pub allocated : s.queue.buffer ≡ some mem
  pub ring : Holds cap s.queue mem bytes
  pub pending : Pending cap s.queue mem s.producer
  pub head_word : s.queue.head_idx < 2 ^ 64
  pub tiles : Tiles s.queue.commit_idx s.calls bytes s.queue.head_idx
  pub whole : s.returned ++ bytes ≡ s.sent

-- No consumer asks for more than stands between the head and the tail.
abbrev pub Within : System → ℕ → Type 0
Within s n = n ≤ distance s.queue.tail_idx s.queue.head_idx

module _ {cap : ℕ} {q : Spmc} {mem bytes : List ℕ} (r : Holds cap q mem bytes) where
  open r use {exponent, small, power, holds}

  pub length-bytes : length bytes ≡ distance q.tail_idx q.commit_idx
  length-bytes =
      sym (ap length holds) ∙ length-window cap mem q.commit_idx (distance q.tail_idx q.commit_idx)

  pub cap_bounds : (0 < cap) × (cap ≤ 2 ^ 63)
  cap_bounds = (
    omega (arith, two_pow_pos exponent),
    omega (arith, two_pow-le {j = exponent} {k = 63} (omega arith)),
  )

  pub wrapped_position : (a : ℕ) → a % 2 ^ 64 % cap ≡ a % cap
  wrapped_position a =
      ap (λ (c : ℕ). a % 2 ^ 64 % c) power
      ∙ mod_size-mod {k = exponent} a (omega arith)
      ∙ ap (λ (c : ℕ). a % c) (sym power)

  pub tail_position : q.tail_idx % cap ≡ (q.commit_idx + length bytes) % cap
  tail_position =
      ap (λ (t : ℕ). t % cap) (omega (arith, length-bytes, r.tail_word, r.commit_word))
      ∙ wrapped_position (q.commit_idx + length bytes)

  -- A part of the bytes is a window of the ring.
  pub window_part :
      (a n : ℕ) → a + n ≤ length bytes → window cap mem (q.commit_idx + a) n ≡ take n (drop a bytes)
  window_part a n h =
      take-eq_of_append n (window cap mem (q.commit_idx + a) n)
        (window cap mem (q.commit_idx + a + n) (length bytes - a - n))
        (length-window cap mem (q.commit_idx + a) n)
        (sym (window-add cap mem (q.commit_idx + a) n (length bytes - a - n))
          ∙ ap (window cap mem (q.commit_idx + a)) (omega arith)
          ∙ drop-eq_of_append a (window cap mem q.commit_idx a)
              (window cap mem (q.commit_idx + a) (length bytes - a))
              (length-window cap mem q.commit_idx a)
              (sym (window-add cap mem q.commit_idx a (length bytes - a))
                ∙ ap (window cap mem q.commit_idx) (omega (arith, length-bytes))
                ∙ holds))
