-- ===== src/Files/Directories/Separators.antt =====
-- Where `find` stops: no byte before it is the one looked for.
use femtolog.Prelude.{
  some_inj, ℕ, zero, suc, ◌-◌, ◌<◌, List, [], ◌∷◌, none, some, false, ◌≡◌, ◌≢◌, sym, ap, ◌∙◌, inl,
  inr, length, get_or, ◌==◌, ==_iff, arith, Bool-cases, Option-cases,
}
use femtolog.Files.Lines.{memchr}
use femtolog.Files.Lines.Equivalence.{memchr-cons, memchr_here}

pub memchr_absent :
    (c : ℕ) (s : List ℕ) (i : ℕ) → memchr c s ≡ none → i < length s → get_or s i 0 ≢ c
memchr_absent c [] i e h same = omega arith
memchr_absent c (x ∷ s) i e h same = elim (Bool-cases (x == c)) [
  | inl here ↦ ground (arith, memchr_here c x s here, e)
  | inr other ↦ elim (Option-cases (memchr c s)) [
    | inr (j, later) ↦ ground (arith, memchr-cons c x s later other, e)
    | inl nowhere ↦ elsewhere i h same (memchr_absent c s (i - 1) nowhere) other
  ]
]
  where
    elsewhere :
        (i : ℕ)
        → i < suc (length s)
        → get_or (x ∷ s) i 0 ≡ c
        → (i - 1 < length s → get_or s (i - 1) 0 ≢ c)
        → (x == c) ≡ false
        → ⊥
    elsewhere zero h same ih other = ground arith
    elsewhere (suc i) h same ih other =
        let before : suc i - 1 ≡ i = omega arith in
        ih (omega arith) (ap (λ (k : ℕ). get_or s k 0) before ∙ same)

pub memchr_at : (c : ℕ) (s : List ℕ) (j : ℕ) → memchr c s ≡ some j → get_or s j 0 ≡ c
unfolding memchr
memchr_at c [] j e = ground arith
memchr_at c (x ∷ s) j e = elim (Bool-cases (x == c)) [
  | inl here ↦
      ap (λ (k : ℕ). get_or (x ∷ s) k 0) (sym (some_inj (sym (memchr_here c x s here) ∙ e)))
      ∙ (==_iff x c).0 here
  | inr other ↦ elim (Option-cases (memchr c s)) [
    | inl nowhere ↦ ground (arith, memchr-cons c x s nowhere other, e)
    | inr (i, later) ↦
        ap (λ (k : ℕ). get_or (x ∷ s) k 0)
          (sym (some_inj (sym (memchr-cons c x s later other) ∙ e)))
        ∙ memchr_at c s i later
  ]
]

pub memchr_before : (c : ℕ) (s : List ℕ) (j i : ℕ) → memchr c s ≡ some j → i < j → get_or s i 0 ≢ c
unfolding memchr
memchr_before c [] j i e h same = ground arith
memchr_before c (x ∷ s) j i e h same = elim (Bool-cases (x == c)) [
  | inl here ↦ omega (arith, some_inj (sym (memchr_here c x s here) ∙ e))
  | inr other ↦ elim (Option-cases (memchr c s)) [
    | inl nowhere ↦ ground (arith, memchr-cons c x s nowhere other, e)
    | inr (k, later) ↦
        elsewhere i same (memchr_before c s k (i - 1) later)
          (omega (arith, some_inj (sym (memchr-cons c x s later other) ∙ e))) other
  ]
]
  where
    elsewhere :
        {k : ℕ} (i : ℕ)
        → get_or (x ∷ s) i 0 ≡ c
        → (i - 1 < k → get_or s (i - 1) 0 ≢ c)
        → i < suc k
        → (x == c) ≡ false
        → ⊥
    elsewhere zero same ih h other = ground arith
    elsewhere (suc i) same ih h other =
        let before : suc i - 1 ≡ i = omega arith in
        ih (omega arith) (ap (λ (k : ℕ). get_or s k 0) before ∙ same)
