-- ===== src/Ring/Window.antt =====
-- The bytes of a ring between two free-running indices, as a list.
use femtolog.Prelude.{
  ℕ, zero, suc, ◌+◌, ◌-◌, ◌%◌, ◌≤◌, ◌<◌, List, [], ◌∷◌, ◌++◌, ◌≡◌, ◌≢◌, refl, sym, ap, ap₂, ◌∙◌,
  length, get_or, set, length-set, get_or-set_self, get_or-set_ne, append-nil, append_assoc, arith,
  take, drop, take-eq_of_append, drop-eq_of_append,
}
use native.Mathlib.Nat.{
  mod-lt, mod-eq_of_lt, mod-eq-sub-mod, mod-add-mod, add-zero, zero-add, suc-add, add_assoc,
}
use native.Mathlib.Decide.{dec_lt}

shift : (a b : ℕ) → a + 1 + b ≡ a + suc b
shift a b = omega arith

abbrev pub sum : List ℕ → ℕ
sum [] = 0
sum (n ∷ sizes) = n + sum sizes

-- a byte sequence cut into pieces of the given sizes
unfoldable pub pieces : List ℕ → List ℕ → List (List ℕ)
pieces bytes [] = []
pieces bytes (n ∷ sizes) = take n bytes ∷ pieces (drop n bytes) sizes

module _ (cap : ℕ) where
  -- the `n` bytes from index `h` on
  unfoldable pub window : List ℕ → ℕ → ℕ → List ℕ
  window mem h zero = []
  window mem h (suc n) = get_or mem (h % cap) 0 ∷ window mem (h + 1) n

  -- `mem` with `src` written byte by byte from index `t` on, each at its position
  unfoldable pub put_bytes : List ℕ → ℕ → List ℕ → List ℕ
  put_bytes mem t [] = mem
  put_bytes mem t (b ∷ src) = put_bytes (set mem (t % cap) b) (t + 1) src

  pub length-window : (mem : List ℕ) (h n : ℕ) → length (window mem h n) ≡ n
  unfolding window
  length-window mem h zero = refl
  length-window mem h (suc n) = ap suc (length-window mem (h + 1) n)

  pub length-put_bytes :
      (mem : List ℕ) (t : ℕ) (src : List ℕ) → length (put_bytes mem t src) ≡ length mem
  unfolding put_bytes
  length-put_bytes mem t [] = refl
  length-put_bytes mem t (b ∷ src) =
      length-put_bytes (set mem (t % cap) b) (t + 1) src ∙ length-set mem (t % cap) b

  suc_mod_congr : (h h' : ℕ) → h % cap ≡ h' % cap → (h + 1) % cap ≡ (h' + 1) % cap
  suc_mod_congr h h' e =
      sym (mod-add-mod h cap 1) ∙ ap (λ (k : ℕ). (k + 1) % cap) e ∙ mod-add-mod h' cap 1

  -- Only the position of the first index matters.
  pub window-mod :
      (mem : List ℕ) (h h' n : ℕ) → h % cap ≡ h' % cap → window mem h n ≡ window mem h' n
  unfolding window
  window-mod mem h h' zero e = refl
  window-mod mem h h' (suc n) e =
      ap₂ ◌∷◌ (ap (λ (k : ℕ). get_or mem k 0) e)
        (window-mod mem (h + 1) (h' + 1) n (suc_mod_congr h h' e))

  pub put_bytes-mod :
      (mem : List ℕ) (t t' : ℕ) (src : List ℕ)
      → t % cap ≡ t' % cap
      → put_bytes mem t src ≡ put_bytes mem t' src
  unfolding put_bytes
  put_bytes-mod mem t t' [] e = refl
  put_bytes-mod mem t t' (b ∷ src) e =
      put_bytes-mod (set mem (t % cap) b) (t + 1) (t' + 1) src (suc_mod_congr t t' e)
      ∙ ap (λ (k : ℕ). put_bytes (set mem k b) (t' + 1) src) e

  pub window-add :
      (mem : List ℕ) (h m n : ℕ) → window mem h (m + n) ≡ window mem h m ++ window mem (h + m) n
  unfolding window
  window-add mem h zero n =
      ap (λ (k : ℕ). window mem h k) (zero-add n)
      ∙ ap (λ (k : ℕ). window mem k n) (sym (add-zero h))
  window-add mem h (suc m) n =
      ap (λ (k : ℕ). window mem h k) (suc-add m n)
      ∙ ap (λ rest. get_or mem (h % cap) 0 ∷ rest) (window-add mem (h + 1) m n)
      ∙ ap (λ (k : ℕ). get_or mem (h % cap) 0 ∷ (window mem (h + 1) m ++ window mem k n))
          (shift h m)

  pub put_bytes-append :
      (mem : List ℕ) (t : ℕ) (xs ys : List ℕ)
      → put_bytes mem t (xs ++ ys) ≡ put_bytes (put_bytes mem t xs) (t + length xs) ys
  unfolding put_bytes
  put_bytes-append mem t [] ys = ap (λ (k : ℕ). put_bytes mem k ys) (sym (add-zero t))
  put_bytes-append mem t (x ∷ xs) ys =
      put_bytes-append (set mem (t % cap) x) (t + 1) xs ys
      ∙ ap (λ (k : ℕ). put_bytes (put_bytes (set mem (t % cap) x) (t + 1) xs) k ys)
          (shift t (length xs))

  -- Fewer than `cap` steps round the ring do not come back to the start.
  add-mod-ne : (h k : ℕ) → 0 < k → k < cap → (h + k) % cap ≢ h % cap
  add-mod-ne h k p q = elim (dec_lt (h % cap + k) cap) [
    | yes below ↦ omega (arith, mod-add-mod h cap k, mod-eq_of_lt below)
    | no above ↦ omega (
      arith,
      mod-add-mod h cap k,
      mod-lt h {m = cap} (omega arith),
      mod-eq-sub-mod {n = h % cap + k} {m = cap} (omega arith),
      mod-eq_of_lt {n = h % cap + k - cap} {m = cap}
          (omega (arith, mod-lt h {m = cap} (omega arith))),
    )
  ]

  window-set :
      (mem : List ℕ) (h n x : ℕ)
      → cap ≤ length mem
      → n < cap
      → window (set mem ((h + n) % cap) x) h (suc n) ≡ window mem h n ++ (x ∷ [])
  unfolding window
  window-set mem h zero x fits lt =
      rw (add-zero h, get_or-set_self mem (h % cap) x 0 (omega (arith, mod-lt h {m = cap} lt)))
  window-set mem h (suc n) x fits lt =
      ap₂ ◌∷◌
        (get_or-set_ne mem ((h + suc n) % cap) (h % cap) x 0
          (add-mod-ne h (suc n) (omega arith) lt))
        (ap (λ (k : ℕ). window (set mem (k % cap) x) (h + 1) (suc n)) (sym (shift h n))
          ∙ window-set mem (h + 1) n x fits (omega arith))

  -- Writing just past a window, with room left, extends it by what is written.
  pub window-put_bytes :
      (mem : List ℕ) (h n : ℕ) (src : List ℕ)
      → cap ≤ length mem
      → n + length src ≤ cap
      → window (put_bytes mem (h + n) src) h (n + length src) ≡ window mem h n ++ src
  unfolding put_bytes
  window-put_bytes mem h n [] fits room =
      ap (λ (k : ℕ). window mem h k) (add-zero n) ∙ sym (append-nil (window mem h n))
  window-put_bytes mem h n (b ∷ src) fits room =
      rw (← shift n (length src), add_assoc h n 1)
        (window-put_bytes (set mem ((h + n) % cap) b) h (n + 1) src
            (omega (arith, length-set mem ((h + n) % cap) b)) (omega arith)
          ∙ ap (λ front. front ++ src) (extend ∙ window-set mem h n b fits (omega arith))
          ∙ append_assoc (window mem h n) (b ∷ []) src)
    where
      extend :
          window (set mem ((h + n) % cap) b) h (n + 1)
          ≡ window (set mem ((h + n) % cap) b) h (suc n)
      extend = ap (window (set mem ((h + n) % cap) b) h) (omega arith)

  -- the windows of the given sizes, one behind the other from index `h` on
  unfoldable pub windows : List ℕ → ℕ → List ℕ → List (List ℕ)
  windows mem h [] = []
  windows mem h (n ∷ sizes) = window mem h n ∷ windows mem (h + n) sizes

  pub windows-pieces :
      (mem : List ℕ) (h n : ℕ) (sizes : List ℕ)
      → sum sizes ≤ n
      → windows mem h sizes ≡ pieces (window mem h n) sizes
  unfolding windows pieces
  windows-pieces mem h n [] le = refl
  windows-pieces mem h n (m ∷ sizes) le =
      ap₂ ◌∷◌ (take-eq_of_append m _ _ (length-window mem h m) whole) (
        windows-pieces mem (h + m) (n - m) sizes (omega arith)
        ∙ ap (λ bytes. pieces bytes sizes)
            (drop-eq_of_append m (window mem h m) _ (length-window mem h m) whole))
    where
      whole : window mem h m ++ window mem (h + m) (n - m) ≡ window mem h n
      whole = sym (window-add mem h m (n - m)) ∙ ap (window mem h) (omega arith)
