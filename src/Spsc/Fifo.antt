-- ===== src/Spsc/Fifo.antt =====
-- What the queue promises: a first-in first-out sequence of at most `cap` bytes, oldest first.
use femtolog.Prelude.{
  ℕ, ◌-◌, List, [], ◌++◌, length, take, drop, ◌≡◌, refl, ◌<◌, ◌≤◌, true, false, arith,
  length-append, take-eq_of_append, drop-eq_of_append, ltb, ◌==◌, if◌then◌else◌,
}
use femtolog.Ring.Window.{sum, pieces}
use femtolog.Spsc.{Status, ok, underflow, overflow, size_is_zero}

unfoldable pub enqueue : ℕ → List ℕ → List ℕ → Status × List ℕ
enqueue cap bytes src =
    if length src == 0
    then (size_is_zero, bytes)
    else (if ltb (cap - length bytes) (length src) then (overflow, bytes) else (ok, bytes ++ src))

unfoldable pub dequeue : List ℕ → ℕ → Status × List ℕ × List ℕ
dequeue bytes n =
    if n == 0
    then (size_is_zero, [], bytes)
    else (if ltb (length bytes) n then (underflow, [], bytes) else (ok, take n bytes, drop n bytes))

unfoldable pub peek : List ℕ → ℕ → Status × List ℕ
peek bytes n =
    if n == 0
    then (size_is_zero, [])
    else (if ltb (length bytes) n then (underflow, []) else (ok, take n bytes))

unfoldable pub dequeue_bulk : List ℕ → List ℕ → Status × List (List ℕ) × List ℕ
dequeue_bulk bytes sizes =
    if sum sizes == 0
    then (size_is_zero, [], bytes)
    else (if ltb (length bytes) (sum sizes)
        then (underflow, [], bytes)
        else (ok, pieces bytes sizes, drop (sum sizes) bytes))

-- Taking off exactly the front part of a sequence.
pub dequeue-append :
    (n : ℕ) (xs ys : List ℕ) → length xs ≡ n → 0 < n → dequeue (xs ++ ys) n ≡ (ok, xs, ys)
unfolding dequeue
dequeue-append n xs ys e pos =
    rw (positive, enough, ← take-eq_of_append n xs ys e refl, ← drop-eq_of_append n xs ys e refl)
  where
    positive : (n == 0) ≡ false
    positive = ground arith

    enough : ltb (length (xs ++ ys)) n ≡ false
    enough = ground (arith, length-append xs ys)

pub peek_front :
    (n : ℕ) (bytes : List ℕ) → 0 < n → n ≤ length bytes → peek bytes n ≡ (ok, take n bytes)
unfolding peek
peek_front n bytes pos le = ground arith

pub enqueue_full :
    (cap : ℕ) (bytes src : List ℕ)
    → 0 < length src
    → ltb (cap - length bytes) (length src) ≡ true
    → enqueue cap bytes src ≡ (overflow, bytes)
unfolding enqueue
enqueue_full cap bytes src pos full = ground arith

pub enqueue_fits :
    (cap : ℕ) (bytes src : List ℕ)
    → 0 < length src
    → ltb (cap - length bytes) (length src) ≡ false
    → enqueue cap bytes src ≡ (ok, bytes ++ src)
unfolding enqueue
enqueue_fits cap bytes src pos fits = ground arith
