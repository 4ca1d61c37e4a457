-- ===== src/Ring/Copy.antt =====
-- The two-piece copies of the queues write and read the window of the ring.
use femtolog.Prelude.{
  ℕ, zero, suc, ◌+◌, ◌-◌, ◌%◌, ◌^◌, ◌≤◌, ◌<◌, List, [], ◌∷◌, ◌++◌, some, ◌≡◌, refl, sym, ap, ◌∙◌,
  length, get_or, set, take, drop, length-take, length-drop, inl, inr, take-append-drop, leb,
  leb→le, false, le→leb, arith, Bool-cases,
}
use native.Mathlib.Nat.{add_assoc, mod-lt, mod-eq_of_lt, mod-add-mod, mod_self}
use mathlib.Core.List.{flatten}
use femtolog.Ring.{copy_in_all, copy_out_all}
use femtolog.Prelude.{map}
use femtolog.Ring.Window.{window-mod, put_bytes-mod, windows, sum}
use femtolog.Word.{add_size, mod_size-mod, bit_and-mask, two_pow-le, two_pow_pos}
use femtolog.Ring.{store, load, memcpy_in, memcpy_out, position, to_end, copy_in, copy_out}
use femtolog.Ring.Window.{window, put_bytes, window-add, put_bytes-append, length-put_bytes}

-- A position and the one after it, as long as the end of the buffer is not passed.
suc_position : (cap t p n : ℕ) → p ≡ t % cap → p + suc (suc n) ≤ cap → p + 1 ≡ (t + 1) % cap
suc_position cap t p n e h =
    sym (mod-eq_of_lt {n = p + 1} {m = cap} (omega arith))
    ∙ ap (λ (k : ℕ). (k + 1) % cap) e
    ∙ mod-add-mod t cap 1

store-put_bytes :
    (cap : ℕ) (mem : List ℕ) (p t : ℕ) (src : List ℕ)
    → p ≡ t % cap
    → p + length src ≤ cap
    → store mem p src ≡ put_bytes cap mem t src
unfolding store put_bytes
store-put_bytes cap mem p t [] e h = refl
store-put_bytes cap mem p t (b ∷ []) e h = ap (λ (k : ℕ). set mem k b) e
store-put_bytes cap mem p t (b ∷ c ∷ src) e h =
    store-put_bytes cap (set mem p b) (p + 1) (t + 1) (c ∷ src)
      (suc_position cap t p (length src) e h) (omega arith)
    ∙ ap (λ (k : ℕ). put_bytes cap (set mem k b) (t + 1) (c ∷ src)) e

load-window :
    (cap : ℕ) (mem : List ℕ) (p h n : ℕ)
    → p ≡ h % cap
    → p + n ≤ cap
    → load mem p n ≡ window cap mem h n
unfolding load window
load-window cap mem p h zero e le = refl
load-window cap mem p h (suc zero) e le = ap (λ (k : ℕ). get_or mem k 0 ∷ []) e
load-window cap mem p h (suc (suc n)) e le =
    ap (λ (k : ℕ). get_or mem p 0 ∷ load mem k (suc n)) refl
    ∙ ap (λ rest. get_or mem p 0 ∷ rest)
        (load-window cap mem (p + 1) (h + 1) (suc n) (suc_position cap h p n e le) (omega arith))
    ∙ ap (λ (k : ℕ). get_or mem k 0 ∷ window cap mem (h + 1) (suc n)) e

-- The byte after the last one of the buffer stands at position 0.
wrap_position : (cap t : ℕ) → 0 < cap → 0 ≡ (t + (cap - t % cap)) % cap
wrap_position cap t pos =
    sym (mod_self cap)
    ∙ ap (λ (k : ℕ). k % cap) (omega (arith, mod-lt t pos))
    ∙ mod-add-mod t cap (cap - t % cap)

memcpy_in_lem :
    (cap : ℕ) (mem : List ℕ) (p t : ℕ) (src : List ℕ)
    → cap ≤ length mem
    → p ≡ t % cap
    → p + length src ≤ cap
    → memcpy_in mem p src ≡ some (put_bytes cap mem t src)
unfolding memcpy_in
memcpy_in_lem cap mem p t src fits e h =
    rw (le→leb (p + length src) (length mem) (omega arith))
      (ap some (store-put_bytes cap mem p t src e h))

memcpy_out_lem :
    (cap : ℕ) (mem : List ℕ) (p t n : ℕ)
    → cap ≤ length mem
    → p ≡ t % cap
    → p + n ≤ cap
    → memcpy_out mem p n ≡ some (window cap mem t n)
unfolding memcpy_out
memcpy_out_lem cap mem p t n fits e h =
    rw (le→leb (p + n) (length mem) (omega arith)) (ap some (load-window cap mem p t n e h))

-- A buffer of `2 ^ exponent` bytes at least, and the mask that goes with it.
module _ (exponent : ℕ) (small : exponent < 64) (mem : List ℕ)
    (fits : 2 ^ exponent ≤ length mem) where
  abbrev cap : ℕ
  cap = 2 ^ exponent

  cap_bounds : (0 < cap) × (cap ≤ 2 ^ 63)
  cap_bounds = (two_pow_pos exponent, two_pow-le {k = 63} (omega arith))

  position-mod : (t : ℕ) → position (cap - 1) t ≡ t % cap
  unfolding position
  position-mod t = bit_and-mask exponent t

  to_end-sub : (t : ℕ) → to_end (cap - 1) t ≡ cap - t % cap
  unfolding to_end
  to_end-sub t = omega (arith, cap_bounds, bit_and-mask exponent t, mod-lt t cap_bounds.0)

  -- The copy into the ring stays in the buffer, and writes the window from `t` on.
  pub copy_in_lem :
      (t : ℕ) (src : List ℕ)
      → length src ≤ cap
      → copy_in mem (cap - 1) t src ≡ some (put_bytes cap mem t src)
  unfolding copy_in
  copy_in_lem t src h =
      rw (position-mod t, to_end-sub t)
        (elim (Bool-cases (leb (length src) room)) [
          | inl one ↦ rw one (
              memcpy_in_lem cap mem (t % cap) t src fits refl
                (omega (arith, leb→le _ _ one, mod-lt t cap_bounds.0)))
          | inr two ↦ rw (two, first two) (second two)
        ])
    where
      room : ℕ
      room = cap - t % cap

      front : List ℕ
      front = take room src

      front_length : leb (length src) room ≡ false → length front ≡ room
      front_length two = ground (arith, length-take room src)

      first :
          leb (length src) room ≡ false
          → memcpy_in mem (t % cap) front ≡ some (put_bytes cap mem t front)
      first two =
          memcpy_in_lem cap mem (t % cap) t front fits refl
            (omega (arith, front_length two, mod-lt t cap_bounds.0))

      second :
          leb (length src) room ≡ false
          → memcpy_in (put_bytes cap mem t front) 0 (drop room src) ≡ some (put_bytes cap mem t src)
      second two =
          memcpy_in_lem cap (put_bytes cap mem t front) 0 (t + room) (drop room src)
            (omega (arith, length-put_bytes cap mem t front)) (wrap_position cap t cap_bounds.0)
            (omega (arith, length-drop room src))
          ∙ ap some (
              ap (λ (k : ℕ). put_bytes cap (put_bytes cap mem t front) (t + k) (drop room src))
                (sym (front_length two))
              ∙ sym (put_bytes-append cap mem t front (drop room src))
              ∙ ap (put_bytes cap mem t) (take-append-drop room src))

  -- The copy out of the ring stays in the buffer, and reads the window from `t` on.
  pub copy_out_lem : (t n : ℕ) → n ≤ cap → copy_out mem (cap - 1) t n ≡ some (window cap mem t n)
  unfolding copy_out
  copy_out_lem t n h =
      rw (position-mod t, to_end-sub t)
        (elim (Bool-cases (leb n room)) [
          | inl one ↦ rw one (
              memcpy_out_lem cap mem (t % cap) t n fits refl
                (omega (arith, leb→le _ _ one, mod-lt t cap_bounds.0)))
          | inr two ↦ rw (two, first, second) (ap some (joined two))
        ])
    where
      room : ℕ
      room = cap - t % cap

      first : memcpy_out mem (t % cap) room ≡ some (window cap mem t room)
      first =
          memcpy_out_lem cap mem (t % cap) t room fits refl (omega (arith, mod-lt t cap_bounds.0))

      second : memcpy_out mem 0 (n - room) ≡ some (window cap mem (t + room) (n - room))
      second =
          memcpy_out_lem cap mem 0 (t + room) (n - room) fits (wrap_position cap t cap_bounds.0)
            (omega arith)

      joined :
          leb n room ≡ false
          → window cap mem t room ++ window cap mem (t + room) (n - room) ≡ window cap mem t n
      joined two = sym (window-add cap mem t room (n - room)) ∙ ap (window cap mem t) (ground arith)

module _ (exponent : ℕ) (small : exponent < 64) (idx : ℕ) where
  abbrev ring : ℕ
  ring = 2 ^ exponent

  wrapped : (offset : ℕ) → add_size idx offset % ring ≡ (idx + offset) % ring
  wrapped offset = mod_size-mod {k = exponent} (idx + offset) (omega arith)

  -- The loop of `enqueue_bulk` writes the pieces one behind the other.
  pub copy_in_all_lem :
      (mem : List ℕ) (offset : ℕ) (srcs : List (List ℕ))
      → ring ≤ length mem
      → offset + sum (map length srcs) ≤ ring
      → copy_in_all mem (ring - 1) idx offset srcs
        ≡ some (put_bytes ring mem (idx + offset) (flatten srcs))
  unfolding copy_in_all put_bytes flatten
  copy_in_all_lem mem offset [] fits room = refl
  copy_in_all_lem mem offset (src ∷ srcs) fits room = rw (
    copy_in_lem exponent small mem fits (add_size idx offset) src (omega arith),
    put_bytes-mod ring mem (add_size idx offset) (idx + offset) src (wrapped offset),
    next,
    copy_in_all_lem (put_bytes ring mem (idx + offset) src) (offset + length src) srcs
        (omega (arith, length-put_bytes ring mem (idx + offset) src)) (omega arith),
    put_bytes-append ring mem (idx + offset) src (flatten srcs),
    add_assoc idx offset (length src),
  )
    where
      next : add_size offset (length src) ≡ offset + length src
      next = omega (arith, two_pow-le {j = exponent} {k = 63} (omega arith))

  -- The loop of `dequeue_bulk` reads the pieces one behind the other.
  pub copy_out_all_lem :
      (mem : List ℕ) (offset : ℕ) (sizes : List ℕ)
      → ring ≤ length mem
      → offset + sum sizes ≤ ring
      → copy_out_all mem (ring - 1) idx offset sizes ≡ some (windows ring mem (idx + offset) sizes)
  unfolding copy_out_all windows
  copy_out_all_lem mem offset [] fits room = refl
  copy_out_all_lem mem offset (n ∷ sizes) fits room = rw (
    copy_out_lem exponent small mem fits (add_size idx offset) n (omega arith),
    window-mod ring mem (add_size idx offset) (idx + offset) n (wrapped offset),
    next,
    copy_out_all_lem mem (offset + n) sizes fits (omega arith),
    add_assoc idx offset n,
  )
    where
      next : add_size offset n ≡ offset + n
      next = omega (arith, two_pow-le {j = exponent} {k = 63} (omega arith))
