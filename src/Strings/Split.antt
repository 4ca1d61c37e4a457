-- ===== src/Strings/Split.antt =====
-- `split_string` of src/core/base/string_util.cc, and the comparison of prefixes that
-- `std::string::find` and `starts_with` make.
use femtolog.Prelude.{
  some_inj, ℕ, zero, suc, ◌+◌, ◌≤◌, List, [], ◌∷◌, ◌++◌, map, ◌≡◌, refl, sym, ap, ap₂, subst, ◌∙◌,
  ◌⊎◌, inl, inr, Option, none, some, Bool, true, false, ◌&&◌, ◌==◌, ==_iff, and_true, if◌then◌else◌,
  Bool-cases, Option-cases, length, take, drop, arith, append_assoc, append-nil, leb, length-drop,
}

unfoldable pub is_prefix : List ℕ → List ℕ → Bool
is_prefix [] s = true
is_prefix (x ∷ prefix) [] = false
is_prefix (x ∷ prefix) (y ∷ s) = x == y && is_prefix prefix s

-- `starts_with(input, prefix)`, at index 0.
unfoldable pub starts_with : List ℕ → List ℕ → Bool
unfolding is_prefix
starts_with input prefix = leb (length prefix) (length input) && is_prefix prefix input

-- `input.find(delimiter)`
unfoldable pub find : List ℕ → List ℕ → Option ℕ
unfolding is_prefix
find delimiter [] = if is_prefix delimiter [] then some 0 else none
find delimiter (x ∷ input) =
    let later = find delimiter input in
    if is_prefix delimiter (x ∷ input)
    then some 0
    else elim later [ none ↦ none | some k ↦ some (suc k) ]

-- The loop of `split_string` on what stands from `pos` on, for at most so many pieces.
unfoldable pub split_from : ℕ → List ℕ → List ℕ → List (List ℕ)
split_from fuel delimiter [] = []
split_from zero delimiter (x ∷ rest) = []
split_from (suc fuel) delimiter (x ∷ rest) = elim (find delimiter (x ∷ rest)) [
  | none ↦ (x ∷ rest) ∷ []
  | some k ↦ take k (x ∷ rest) ∷ split_from fuel delimiter (drop (k + length delimiter) (x ∷ rest))
]

unfoldable pub split_string : List ℕ → List ℕ → List (List ℕ)
unfolding split_from
split_string input delimiter =
    if length delimiter == 0
    then map (λ c. c ∷ []) input
    else split_from (length input) delimiter input

-- The pieces with the delimiter between them.
abbrev pub join : List ℕ → List (List ℕ) → List ℕ
join delimiter [] = []
join delimiter (p ∷ []) = p
join delimiter (p ∷ q ∷ ps) = p ++ (delimiter ++ join delimiter (q ∷ ps))

abbrev pub AreFree : List ℕ → List (List ℕ) → Type 0
AreFree delimiter [] = Unit
AreFree delimiter (p ∷ ps) = (find delimiter p ≡ none) × AreFree delimiter ps

-- The pieces `ps` are what stands between the delimiters of `s`, where a delimiter at the very end
-- opens no piece.
abbrev pub Splits : List ℕ → List ℕ → List (List ℕ) → Type 0
Splits delimiter s [] = s ≡ []
Splits delimiter s (p ∷ ps) =
    ((s ≡ join delimiter (p ∷ ps)) ⊎ (s ≡ join delimiter (p ∷ ps) ++ delimiter))
    × AreFree delimiter (p ∷ ps)

is_prefix-drop : (d s : List ℕ) → is_prefix d s ≡ true → d ++ drop (length d) s ≡ s
unfolding is_prefix
is_prefix-drop [] s h = refl
is_prefix-drop (x ∷ d) [] h = ground arith
is_prefix-drop (x ∷ d) (y ∷ s) h =
    let (same, rest) = and_true (x == y) (is_prefix d s) h in
    ap₂ (λ (z : ℕ) zs. z ∷ zs) ((==_iff x y).0 same) (is_prefix-drop d s rest)

is_prefix-take :
    (d : List ℕ) (j : ℕ) (s : List ℕ) → is_prefix d s ≡ false → is_prefix d (take j s) ≡ false
unfolding is_prefix
is_prefix-take [] j s h = h
is_prefix-take (x ∷ d) zero s h = refl
is_prefix-take (x ∷ d) (suc j) [] h = refl
is_prefix-take (x ∷ d) (suc j) (y ∷ s) h = elim (Bool-cases (x == y)) [
  | inl same ↦ rw same (is_prefix-take d j s (ground (arith, same, h)))
  | inr differs ↦ rw differs refl
]

find_here : (d : List ℕ) (y : ℕ) (s : List ℕ) → is_prefix d (y ∷ s) ≡ true → find d (y ∷ s) ≡ some 0
unfolding find
find_here d y s here =
    ap (λ b. if b then some 0 else elim (find d s) [ none ↦ none | some k ↦ some (suc k) ]) here

find_not_here :
    (d : List ℕ) (y : ℕ) (s : List ℕ) {later : Option ℕ}
    → is_prefix d (y ∷ s) ≡ false
    → find d s ≡ later
    → find d (y ∷ s) ≡ elim later [ none ↦ none | some k ↦ some (suc k) ]
unfolding find
find_not_here d y s absent e =
    ap (λ b. if b then some 0 else elim (find d s) [ none ↦ none | some k ↦ some (suc k) ]) absent
    ∙ ap (λ (o : Option ℕ). elim o [ none ↦ none | some k ↦ some (suc k) ]) e

-- The position `k` is the first where `d` occurs in `s`.
Found : List ℕ → List ℕ → ℕ → Type 0
Found d s k = (take k s ++ (d ++ drop (k + length d) s) ≡ s) × (find d (take k s) ≡ none)

zero_left : (n : ℕ) → 0 + n ≡ n
zero_left n = omega arith

suc_left : (j n : ℕ) → suc j + n ≡ suc (j + n)
suc_left j n = omega arith

find-Found : (x : ℕ) (d s : List ℕ) (k : ℕ) → find (x ∷ d) s ≡ some k → Found (x ∷ d) s k
unfolding find is_prefix Found
find-Found x d [] k h = ground arith
find-Found x d (y ∷ s) k h = elim (Bool-cases (is_prefix (x ∷ d) (y ∷ s))) [
  | inl here ↦ subst (Found (x ∷ d) (y ∷ s)) (some_inj (sym (find_here (x ∷ d) y s here) ∙ h)) (
    ap (λ (n : ℕ). (x ∷ d) ++ drop n (y ∷ s)) (zero_left (length (x ∷ d)))
        ∙ is_prefix-drop (x ∷ d) (y ∷ s) here,
    refl,
  )
  | inr not_here ↦ elim (Option-cases (find (x ∷ d) s)) [
    | inl nowhere ↦ ground (arith, find_not_here (x ∷ d) y s not_here nowhere, h)
    | inr (j, later) ↦
        let (around, free) = find-Found x d s j later in
        subst (Found (x ∷ d) (y ∷ s))
          (some_inj (sym (find_not_here (x ∷ d) y s not_here later) ∙ h))
          (
            ap (λ zs. y ∷ zs)
                (ap (λ (n : ℕ). take j s ++ ((x ∷ d) ++ drop n (y ∷ s)))
                    (suc_left j (length (x ∷ d)))
                  ∙ around),
            find_not_here (x ∷ d) y (take j s) (is_prefix-take (x ∷ d) (suc j) (y ∷ s) not_here)
                free,
          )
  ]
]

-- One piece in front of the pieces of the rest.
Splits-cons :
    (d p rest : List ℕ) (ps : List (List ℕ))
    → find d p ≡ none
    → Splits d rest ps
    → Splits d (p ++ (d ++ rest)) (p ∷ ps)
Splits-cons d p rest [] free done =
    (inr (ap (λ r. p ++ (d ++ r)) done ∙ ap (λ r. p ++ r) (append-nil d)), (free, tt))
Splits-cons d p rest (q ∷ ps) free (inl e, frees) = (inl (ap (λ r. p ++ (d ++ r)) e), (free, frees))
Splits-cons d p rest (q ∷ ps) free (inr e, frees) = (
  inr (
      ap (λ r. p ++ (d ++ r)) e
      ∙ ap (λ r. p ++ r) (sym (append_assoc d (join d (q ∷ ps)) d))
      ∙ sym (append_assoc p (d ++ join d (q ∷ ps)) d)),
  (free, frees),
)

split_from_step :
    (fuel : ℕ) (d : List ℕ) (y : ℕ) (s : List ℕ) {found : Option ℕ}
    → find d (y ∷ s) ≡ found
    → split_from (suc fuel) d (y ∷ s) ≡ elim found [
      | none ↦ (y ∷ s) ∷ []
      | some k ↦ take k (y ∷ s) ∷ split_from fuel d (drop (k + length d) (y ∷ s))
    ]
unfolding split_from
split_from_step fuel d y s e =
    ap
      (λ (o : Option ℕ). elim o [
        | none ↦ (y ∷ s) ∷ []
        | some k ↦ take k (y ∷ s) ∷ split_from fuel d (drop (k + length d) (y ∷ s))
      ])
      e

split_from-Splits :
    (fuel x : ℕ) (d s : List ℕ) → length s ≤ fuel → Splits (x ∷ d) s (split_from fuel (x ∷ d) s)
unfolding split_from Found
split_from-Splits fuel x d [] h = refl
split_from-Splits zero x d (y ∷ s) h = absurd (omega arith)
split_from-Splits (suc fuel) x d (y ∷ s) h = elim (Option-cases (find (x ∷ d) (y ∷ s))) [
  | inl nowhere ↦
      subst (Splits (x ∷ d) (y ∷ s)) (sym (split_from_step fuel (x ∷ d) y s nowhere))
        (inl refl, (nowhere, tt))
  | inr (k, found) ↦
      let (around, free) = find-Found x d (y ∷ s) k found in
      let rest = drop (k + length (x ∷ d)) (y ∷ s) in
      let short : length rest ≤ fuel = omega (arith, h, length-drop (k + length (x ∷ d)) (y ∷ s)) in
      subst (Splits (x ∷ d) (y ∷ s)) (sym (split_from_step fuel (x ∷ d) y s found)) (
        subst (λ whole. Splits (x ∷ d) whole (take k (y ∷ s) ∷ split_from fuel (x ∷ d) rest)) around
          (Splits-cons (x ∷ d) (take k (y ∷ s)) rest (split_from fuel (x ∷ d) rest) free
            (split_from-Splits fuel x d rest short)))
]

-- Each piece is a single byte.
abbrev pub AreBytes : List (List ℕ) → Type 0
AreBytes [] = Unit
AreBytes (p ∷ ps) = (length p ≡ 1) × AreBytes ps

-- With a delimiter that is not empty, `split_string` returns the pieces of the input between the
-- delimiters: joined by the delimiter they give the input back, but for one delimiter at its very
-- end, and no piece has the delimiter in it. With an empty delimiter it returns each byte by itself:
-- every piece is one byte long, and the pieces in their order make the input.
pub split_string_lem :
    (input : List ℕ) (x : ℕ) (d : List ℕ)
    → Splits (x ∷ d) input (split_string input (x ∷ d))
      × AreBytes (split_string input [])
      × (join [] (split_string input []) ≡ input)
unfolding split_string
split_string_lem input x d = (
  rw (positive d) (split_from-Splits (length input) x d input (omega arith)),
  single input,
  bytes input,
)
  where
    positive : (d : List ℕ) → (suc (length d) == 0) ≡ false
    positive d = ground arith

    single : (s : List ℕ) → AreBytes (map (λ c. c ∷ []) s)
    single [] = tt
    single (c ∷ s) = (refl, single s)

    bytes : (s : List ℕ) → join [] (map (λ c. c ∷ []) s) ≡ s
    bytes [] = refl
    bytes (c ∷ []) = refl
    bytes (c ∷ d ∷ s) = ap (λ zs. c ∷ zs) (bytes (d ∷ s))
