-- ===== src/Files/Lines/Reads.antt =====
-- What the lines of a content are.
use femtolog.Prelude.{
  ℕ, zero, suc, ◌+◌, ◌-◌, ◌≤◌, ◌<◌, List, [], ◌∷◌, ◌++◌, none, some, ◌≡◌, refl, sym, ap, ◌∙◌, subst,
  ◌⊎◌, inl, inr, length, take, drop, ltb, arith, Bool-cases, Option-cases, length-drop, drop-drop,
  take_all, drop_all, ltb→lt,
}
use femtolog.Files.Lines.{newline, memchr, line_at, default_loop, read_lines_default}
use femtolog.Files.Lines.Equivalence.{default_step, default_stop, memchr-lt}
use femtolog.Files.Lines.Cut.{IsLineOf, chomp, chomp-IsLineOf, line_at-chomp, memchr-Found}

-- The content is the lines, each with the newline that ends it, where the last line may have none
-- when it is not empty.
abbrev pub Reads : List ℕ → List (List ℕ) → Type 0
Reads content [] = content ≡ []
Reads content (line ∷ lines) =
    (s : List ℕ) × (rest : List ℕ) × IsLineOf line s
    × (memchr newline s ≡ none)
    × Reads rest lines
    × ((content ≡ s ++ (newline ∷ rest)) ⊎ ((content ≡ s) × (rest ≡ []) × (0 < length s)))

module _ (fuel : ℕ) (content : List ℕ) (start : ℕ) (inside : start < length content) where
  left : List ℕ
  left = drop start content

  last_line :
      memchr newline left ≡ none
      → Reads left
          (line_at content start (length content) ∷ default_loop fuel content (length content))
  unfolding left
  last_line last = (
    left,
    [],
    subst (λ line. IsLineOf line left)
        (sym (
          line_at-chomp content start (length content) (omega arith) (omega arith)
          ∙ ap chomp
              (take_all (length content - start) left (omega (arith, length-drop start content)))))
        (chomp-IsLineOf left),
    last,
    subst (Reads []) (sym (default_stop fuel content (length content) (omega arith))) refl,
    inr (refl, refl, omega (arith, length-drop start content)),
  )

  terminated :
      (k : ℕ)
      → memchr newline left ≡ some k
      → Reads (drop (start + k + 1) content) (default_loop fuel content (start + k + 1))
      → Reads left (line_at content start (start + k) ∷ default_loop fuel content (start + k + 1))
  unfolding left
  terminated k found ih =
      let (around, free) = memchr-Found left k found in
      let short : start + k ≤ length content =
        omega (arith, memchr-lt newline left k found, length-drop start content) in
      (
        take k left,
        drop (suc k) left,
        subst (λ line. IsLineOf line (take k left))
            (sym (
              line_at-chomp content start (start + k) (omega arith) short
              ∙ ap (λ (n : ℕ). chomp (take n left))
                  (let e : start + k - start ≡ k = omega arith in e)))
            (chomp-IsLineOf (take k left)),
        free,
        subst (λ rest. Reads rest (default_loop fuel content (start + k + 1)))
            (ap (λ (n : ℕ). drop n content)
                (let e : start + k + 1 ≡ start + suc k = omega arith in e)
              ∙ sym (drop-drop start (suc k) content))
            ih,
        inl (sym around),
      )

-- From every position on, the loop reads the lines of the bytes that are left.
default_loop-Reads :
    (fuel : ℕ) (content : List ℕ) (start : ℕ)
    → length content ≤ start + fuel
    → Reads (drop start content) (default_loop fuel content start)
unfolding left
default_loop-Reads zero content start enough =
    subst (Reads (drop start content)) (sym (default_stop zero content start (omega arith)))
      (drop_all start content (omega arith))
default_loop-Reads (suc fuel) content start enough =
    elim (Bool-cases (ltb start (length content))) [
      | inr past ↦
          let stop : length content ≤ start = ground arith in
          subst (Reads (drop start content)) (sym (default_stop (suc fuel) content start stop))
            (drop_all start content stop)
      | inl more ↦
          let inside : start < length content = ltb→lt start (length content) more in
          elim (Option-cases (memchr newline (drop start content))) [
            | inl last ↦
                subst (Reads (drop start content))
                  (sym (default_step fuel content start inside last))
                  (last_line fuel content start inside last)
            | inr (k, found) ↦
                subst (Reads (drop start content))
                  (sym (default_step fuel content start inside found))
                  (terminated fuel content start inside k found
                    (default_loop-Reads fuel content (start + k + 1) (omega arith)))
          ]
    ]

-- `read_lines_default` returns the lines of the content: each stands between two newlines, but for
-- the last one, which may end with the content, and a carriage return at the end of a line is left
-- out.
pub read_lines_default-Reads : (content : List ℕ) → Reads content (read_lines_default content)
unfolding read_lines_default
read_lines_default-Reads [] = refl
read_lines_default-Reads (c ∷ content) =
    default_loop-Reads (suc (length content)) (c ∷ content) 0 (omega arith)
