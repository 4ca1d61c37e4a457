-- ===== src/Files/Path/Pieces.antt =====
-- The path functions cut a path at its last separator.
use femtolog.Prelude.{
  some_inj, ℕ, suc, ◌<◌, List, [], ◌∷◌, ◌++◌, Option, none, some, ◌≡◌, ◌≢◌, sym, ap, ◌∙◌, subst,
  ◌⊎◌, inl, inr, length, take, drop, ◌==◌, ==_iff, if◌then◌else◌, arith, Bool-cases, Option-cases,
  length-append, length-take, length-drop, drop-eq_of_append, get_or,
}
use femtolog.Files.Path.{separator, dot, find_last_of, parent_dir, base_name, before, behind}

-- `front`, then `c`, then `back`, is `s`, and `c` does not stand in `back`.
pub record Cut (c : ℕ) (s front back : List ℕ) : Type 0 where
  pub whole : front ++ (c ∷ back) ≡ s
  pub last : find_last_of c back ≡ none

abbrev pub last_step : ℕ → ℕ → Option ℕ → Option ℕ
last_step c x o = elim o [ some k ↦ some (suc k) | none ↦ if x == c then some 0 else none ]

pub find_last_of-cons :
    (c x : ℕ) (s : List ℕ) {later : Option ℕ}
    → find_last_of c s ≡ later
    → find_last_of c (x ∷ s) ≡ last_step c x later
unfolding find_last_of
find_last_of-cons c x s e = ap (last_step c x) e

-- What stands before and behind the last `c`.
pub find_last_of-Cut :
    (c : ℕ) (s : List ℕ) (k : ℕ) → find_last_of c s ≡ some k → Cut c s (take k s) (drop (suc k) s)
unfolding find_last_of
find_last_of-Cut c [] k e = ground arith
find_last_of-Cut c (x ∷ s) k e = elim (Option-cases (find_last_of c s)) [
  | inr (j, later) ↦
      let cut = find_last_of-Cut c s j later in
      subst (λ (i : ℕ). Cut c (x ∷ s) (take i (x ∷ s)) (drop (suc i) (x ∷ s)))
        (some_inj (sym (find_last_of-cons c x s later) ∙ e))
        (record { whole = ap (λ zs. x ∷ zs) cut.whole; last = cut.last })
  | inl nowhere ↦ elim (Bool-cases (x == c)) [
    | inl here ↦
        subst (λ (i : ℕ). Cut c (x ∷ s) (take i (x ∷ s)) (drop (suc i) (x ∷ s)))
          (some_inj
            (sym (find_last_of-cons c x s nowhere ∙ ap (λ b. if b then some 0 else none) here) ∙ e))
          (record { whole = ap (λ (y : ℕ). y ∷ s) (sym ((==_iff x c).0 here)); last = nowhere })
    | inr other ↦ ground (arith, find_last_of-cons c x s nowhere, other, e)
  ]
]

-- With a separator in the path, the parent directory, a separator and the base name make the path,
-- and the base name has no separator; with none, both are empty.
abbrev pub SplitPath : List ℕ → Type 0
SplitPath path =
    Cut separator path (parent_dir path) (base_name path)
    ⊎ ((find_last_of separator path ≡ none) × (parent_dir path ≡ []) × (base_name path ≡ []))

-- lem
pub parent_dir-base_name : (path : List ℕ) → SplitPath path
unfolding parent_dir base_name
parent_dir-base_name path = elim (Option-cases (find_last_of separator path)) [
  | inl nowhere ↦ inr (
    nowhere,
    ap (λ (o : Option ℕ). before o path) nowhere,
    ap (λ (o : Option ℕ). behind o path) nowhere,
  )
  | inr (k, found) ↦ inl (
      subst (λ (o : Option ℕ). Cut separator path (before o path) (behind o path)) (sym found)
        (find_last_of-Cut separator path k found))
]

module _ (c : ℕ) (s : List ℕ) (k : ℕ) (found : find_last_of c s ≡ some k) where
  pub find_last_of-lt : k < length s
  find_last_of-lt = omega (
    arith,
    ap length (find_last_of-Cut c s k found).whole,
    length-append (take k s) (c ∷ drop (suc k) s),
    length-take k s,
    length-drop (suc k) s,
  )

  pub drop_there : drop k s ≡ c ∷ drop (suc k) s
  drop_there = sym (
      drop-eq_of_append k (take k s) (c ∷ drop (suc k) s)
        (omega (arith, length-take k s, find_last_of-lt)) (find_last_of-Cut c s k found).whole)

-- A separator and a dot do not stand at one place.
pub apart :
    (path : List ℕ) (p d : ℕ)
    → find_last_of separator path ≡ some p
    → find_last_of dot path ≡ some d
    → p ≢ d
apart path p d at_p at_d e = absurd (
    omega (
      arith,
      ap (λ zs. get_or zs 0 0)
          (sym (drop_there separator path p at_p)
            ∙ ap (λ (k : ℕ). drop k path) e
            ∙ drop_there dot path d at_d),
    ))
