-- ===== src/Files/Lines/Cut.antt =====
-- One line: the cut at a newline, and the carriage return before it.
use femtolog.Prelude.{
  some_inj, ℕ, suc, ◌-◌, ◌≤◌, ◌<◌, List, [], ◌∷◌, ◌++◌, none, some, ◌≡◌, refl, sym, ap, ◌∙◌, subst,
  ◌⊎◌, inl, inr, Bool, true, false, ◌&&◌, length, get_or, take, drop, ltb, ◌==◌, ==_iff, and_true,
  if◌then◌else◌, arith, Bool-cases, Option-cases, length-drop, length-take, get_or-drop,
  get_or-take, take-take, ltb→lt,
}
use femtolog.Files.Lines.{newline, carriage_return, memchr, line_length, line_at}
use femtolog.Files.Lines.Equivalence.{memchr-cons, memchr_here}

-- The last byte of the line is a carriage return.
abbrev pub ends_with_cr : List ℕ → Bool
ends_with_cr s = ltb 0 (length s) && get_or s (length s - 1) 0 == carriage_return

abbrev pub chomp : List ℕ → List ℕ
chomp s = if ends_with_cr s then take (length s - 1) s else s

-- The line is `s`, or `s` is the line and one carriage return.
abbrev pub IsLineOf : List ℕ → List ℕ → Type 0
IsLineOf line s = ((line ≡ s) × (ends_with_cr s ≡ false)) ⊎ (line ++ (carriage_return ∷ []) ≡ s)

take_last :
    (s : List ℕ) → 0 < length s → take (length s - 1) s ++ (get_or s (length s - 1) 0 ∷ []) ≡ s
take_last [] h = absurd (omega arith)
take_last (x ∷ []) h = refl
take_last (x ∷ y ∷ s) h =
    ap (λ (k : ℕ). take k (x ∷ y ∷ s) ++ (get_or (x ∷ y ∷ s) k 0 ∷ []))
      (let e : suc (suc (length s)) - 1 ≡ suc (suc (length s) - 1) = omega arith in e)
    ∙ ap (λ zs. x ∷ zs) (take_last (y ∷ s) (omega arith))

pub chomp-IsLineOf : (s : List ℕ) → IsLineOf (chomp s) s
chomp-IsLineOf s = elim (Bool-cases (ends_with_cr s)) [
  | inr plain ↦ inl (ap (λ b. if b then take (length s - 1) s else s) plain, plain)
  | inl cr ↦
      let (some_byte, last) = and_true (ltb 0 (length s)) _ cr in
      inr (
        ap (λ b. (if b then take (length s - 1) s else s) ++ (carriage_return ∷ [])) cr
        ∙ ap (λ (c : ℕ). take (length s - 1) s ++ (c ∷ []))
            (sym ((==_iff _ carriage_return).0 last))
        ∙ take_last s (ground arith))
]

-- The line that the code cuts out by its length.
cut_out :
    (b : Bool) (n : ℕ) (s : List ℕ)
    → take (if b then n - 1 else n) s ≡ (if b then take (n - 1) (take n s) else take n s)
cut_out true n s = sym (take-take (n - 1) n s (omega arith))
cut_out false n s = refl

pub line_at-chomp :
    (content : List ℕ) (start stop : ℕ)
    → start ≤ stop
    → stop ≤ length content
    → line_at content start stop ≡ chomp (take (stop - start) (drop start content))
unfolding line_at line_length
line_at-chomp content start stop h inside = cut_out _ n s ∙ sym tested
  where
    n : ℕ
    n = stop - start

    s : List ℕ
    s = drop start content

    size : length (take n s) ≡ n
    size = omega (arith, length-take n s, length-drop start content)

    cut : Bool → List ℕ
    cut b = if b then take (n - 1) (take n s) else take n s

    last_byte : 0 < n → get_or (take n s) (n - 1) 0 ≡ get_or content (stop - 1) 0
    last_byte pos =
        get_or-take n (n - 1) s 0 (omega arith)
        ∙ get_or-drop start (n - 1) content 0
        ∙ ap (λ (i : ℕ). get_or content i 0) (omega arith)

    test :
        ltb 0 n && get_or (take n s) (n - 1) 0 == carriage_return
        ≡ ltb 0 n && get_or content (stop - 1) 0 == carriage_return
    test = elim (Bool-cases (ltb 0 n)) [
      | inl pos ↦ ap (λ (c : ℕ). ltb 0 n && c == carriage_return) (last_byte (ltb→lt 0 n pos))
      | inr none_left ↦ rw none_left refl
    ]

    tested : chomp (take n s) ≡ cut (ltb 0 n && get_or content (stop - 1) 0 == carriage_return)
    tested =
        ap
          (λ (i : ℕ).
            if ltb 0 i && get_or (take n s) (i - 1) 0 == carriage_return
            then take (i - 1) (take n s)
            else take n s)
          size
        ∙ ap cut test

pub memchr-Found :
    (s : List ℕ) (k : ℕ)
    → memchr newline s ≡ some k
    → (take k s ++ (newline ∷ drop (suc k) s) ≡ s) × (memchr newline (take k s) ≡ none)
unfolding memchr
memchr-Found [] k e = ground arith
memchr-Found (x ∷ s) k e = elim (Bool-cases (x == newline)) [
  | inl here ↦
      subst
        (λ (i : ℕ).
          (take i (x ∷ s) ++ (newline ∷ drop (suc i) (x ∷ s)) ≡ x ∷ s)
          × (memchr newline (take i (x ∷ s)) ≡ none))
        (some_inj (sym (memchr_here newline x s here) ∙ e))
        (ap (λ (y : ℕ). y ∷ s) (sym ((==_iff x newline).0 here)), refl)
  | inr other ↦ elim (Option-cases (memchr newline s)) [
    | inl nowhere ↦ ground (arith, memchr-cons newline x s nowhere other, e)
    | inr (j, later) ↦
        let (around, free) = memchr-Found s j later in
        subst
          (λ (i : ℕ).
            (take i (x ∷ s) ++ (newline ∷ drop (suc i) (x ∷ s)) ≡ x ∷ s)
            × (memchr newline (take i (x ∷ s)) ≡ none))
          (some_inj (sym (memchr-cons newline x s later other) ∙ e))
          (ap (λ zs. x ∷ zs) around, memchr-cons newline x (take j s) free other)
  ]
]
