-- ===== src/Files/Lines/Equivalence.antt =====
-- The two versions of `read_lines` return the same lines.
use femtolog.Prelude.{
  some_inj, ℕ, zero, suc, ◌+◌, ◌-◌, ◌≤◌, ◌<◌, List, [], ◌∷◌, Option, none, some, ◌≡◌, refl, sym, ap,
  ap₂, ◌∙◌, inl, inr, true, false, ◌&&◌, length, get_or, take, drop, ltb, ◌==◌, if◌then◌else◌,
  arith, Bool-cases, Option-cases, length-drop, drop-drop,
}
use femtolog.Files.Lines.{
  newline, carriage_return, memchr, line_end, next_pos, line_length, line_at, default_loop,
  read_lines_default, scalar_loop, vector_line_length, vector_line, lines_at, read_lines_with_avx2,
}
use femtolog.Files.Lines.Positions.{newline_positions_lem}

abbrev pub later_by_one : Option ℕ → Option ℕ
later_by_one none = none
later_by_one (some k) = some (suc k)

pub memchr-cons :
    (c x : ℕ) (s : List ℕ) {later : Option ℕ}
    → memchr c s ≡ later
    → (x == c) ≡ false
    → memchr c (x ∷ s) ≡ later_by_one later
unfolding memchr
memchr-cons c x s e other =
    ap (λ b. if b then some 0 else later_by_one (memchr c s)) other ∙ ap later_by_one e

pub memchr_here : (c x : ℕ) (s : List ℕ) → (x == c) ≡ true → memchr c (x ∷ s) ≡ some 0
unfolding memchr
memchr_here c x s here = ap (λ b. if b then some 0 else later_by_one (memchr c s)) here

pub memchr-lt : (c : ℕ) (s : List ℕ) (k : ℕ) → memchr c s ≡ some k → k < length s
unfolding memchr
memchr-lt c [] k e = ground arith
memchr-lt c (x ∷ s) k e = elim (Bool-cases (x == c)) [
  | inl here ↦ omega (arith, some_inj (sym (memchr_here c x s here) ∙ e))
  | inr other ↦ elim (Option-cases (memchr c s)) [
    | inl nowhere ↦ ground (arith, memchr-cons c x s nowhere other, e)
    | inr (j, later) ↦
        omega (arith, memchr-lt c s j later, some_inj (sym (memchr-cons c x s later other) ∙ e))
  ]
]

-- The positions of the newlines, one after the other.
scalar_loop-none : (pos : ℕ) (s : List ℕ) → memchr newline s ≡ none → scalar_loop pos s ≡ []
unfolding scalar_loop
scalar_loop-none pos [] e = refl
scalar_loop-none pos (x ∷ s) e = elim (Bool-cases (x == newline)) [
  | inl here ↦ ground (arith, memchr_here newline x s here, e)
  | inr other ↦ elim (Option-cases (memchr newline s)) [
    | inl nowhere ↦ rw other (scalar_loop-none (pos + 1) s nowhere)
    | inr (j, later) ↦ ground (arith, memchr-cons newline x s later other, e)
  ]
]

scalar_loop-some :
    (pos : ℕ) (s : List ℕ) (k : ℕ)
    → memchr newline s ≡ some k
    → scalar_loop pos s ≡ (pos + k) ∷ scalar_loop (pos + k + 1) (drop (suc k) s)
unfolding scalar_loop memchr
scalar_loop-some pos [] k e = ground (arith, e)
scalar_loop-some pos (x ∷ s) k e = elim (Bool-cases (x == newline)) [
  | inl here ↦
      let at_0 : k ≡ 0 = sym (some_inj (sym (memchr_here newline x s here) ∙ e)) in
      rw here (
        ap₂ (λ (p q : ℕ). p ∷ scalar_loop q s) (omega (arith, at_0)) (omega (arith, at_0))
        ∙ ap (λ (i : ℕ). (pos + k) ∷ scalar_loop (pos + k + 1) (drop i s)) (sym at_0))
  | inr other ↦ elim (Option-cases (memchr newline s)) [
    | inl nowhere ↦ ground (arith, memchr-cons newline x s nowhere other, e)
    | inr (j, later) ↦
        let next : suc j ≡ k = some_inj (sym (memchr-cons newline x s later other) ∙ e) in
        rw other (
          scalar_loop-some (pos + 1) s j later
          ∙ ap₂ (λ (p q : ℕ). p ∷ scalar_loop q (drop (suc j) s))
              (let e' : pos + 1 + j ≡ pos + k = omega (arith, next) in e')
              (let e' : pos + 1 + j + 1 ≡ pos + k + 1 = omega (arith, next) in e')
          ∙ ap (λ (i : ℕ). (pos + k) ∷ scalar_loop (pos + k + 1) (drop i s)) next)
  ]
]

vector_line-line_at :
    (content : List ℕ) (start stop : ℕ)
    → start ≤ stop
    → vector_line content start stop ≡ line_at content start stop
unfolding vector_line line_at vector_line_length line_length
vector_line-line_at content start stop h =
    ap
      (λ (i : ℕ).
        take
          (if ltb 0 (stop - start) && get_or content (i - 1) 0 == carriage_return
            then stop - start - 1
            else stop - start)
          (drop start content))
      (omega arith)

pub default_step :
    (fuel : ℕ) (content : List ℕ) (current : ℕ) {found : Option ℕ}
    → current < length content
    → memchr newline (drop current content) ≡ found
    → default_loop (suc fuel) content current
      ≡ line_at content current (line_end content current found)
        ∷ default_loop fuel content (next_pos content current found)
unfolding default_loop
default_step fuel content current inside e =
    ap
      (λ b. elim b [
        | false ↦ []
        | true ↦
            line_at content current
              (line_end content current (memchr newline (drop current content)))
            ∷ default_loop fuel content
                (next_pos content current (memchr newline (drop current content)))
      ])
      (let more : ltb current (length content) ≡ true = ground arith in more)
    ∙ ap
        (λ (o : Option ℕ).
          line_at content current (line_end content current o)
          ∷ default_loop fuel content (next_pos content current o))
        e

pub default_stop :
    (fuel : ℕ) (content : List ℕ) (current : ℕ)
    → length content ≤ current
    → default_loop fuel content current ≡ []
unfolding default_loop
default_stop zero content current past = refl
default_stop (suc fuel) content current past = ground (arith)

positions-nil :
    (content : List ℕ) (start : ℕ)
    → length content ≤ start
    → scalar_loop start (drop start content) ≡ []
unfolding scalar_loop
positions-nil content start past =
    none_left (drop start content) (omega (arith, length-drop start content))
  where
    none_left : (s : List ℕ) → length s ≡ 0 → scalar_loop start s ≡ []
    none_left [] e = refl
    none_left (x ∷ s) e = absurd (omega arith)

lines_at-default_loop :
    (fuel : ℕ) (content : List ℕ) (start : ℕ)
    → length content ≤ start + fuel
    → lines_at content start (scalar_loop start (drop start content))
      ≡ default_loop fuel content start
unfolding lines_at
lines_at-default_loop zero content start enough =
    ap (lines_at content start) (positions-nil content start (omega arith))
    ∙ (let past : ltb start (length content) ≡ false = ground arith in rw past refl)
    ∙ sym (default_stop zero content start (omega arith))
lines_at-default_loop (suc fuel) content start enough =
    elim (Bool-cases (ltb start (length content))) [
      | inr past ↦
          let stop : length content ≤ start = ground arith in
          ap (lines_at content start) (positions-nil content start stop)
          ∙ rw past refl
          ∙ sym (default_stop (suc fuel) content start stop)
      | inl more ↦
          let inside : start < length content = ground arith in
          elim (Option-cases (memchr newline (drop start content))) [
            | inl last ↦
                ap (lines_at content start) (scalar_loop-none start (drop start content) last)
                ∙ rw more (
                    ap₂ ◌∷◌ (vector_line-line_at content start (length content) (omega arith))
                      (sym (default_stop fuel content (length content) (omega arith))))
                ∙ sym (default_step fuel content start inside last)
            | inr (k, found) ↦
                ap (lines_at content start) (
                  scalar_loop-some start (drop start content) k found
                  ∙ ap (λ s. (start + k) ∷ scalar_loop (start + k + 1) s)
                      (drop-drop start (suc k) content
                        ∙ ap (λ (i : ℕ). drop i content) (omega arith)))
                ∙ ap₂ ◌∷◌ (vector_line-line_at content start (start + k) (omega arith))
                    (lines_at-default_loop fuel content (start + k + 1) (omega arith))
                ∙ sym (default_step fuel content start inside found)
          ]
    ]

-- `read_lines_with_avx2`, which looks for newlines in 32 bytes at a time by their mask, returns the
-- lines that `read_lines_default` returns, for every content.
pub read_lines_equal :
    (content : List ℕ) → read_lines_with_avx2 content ≡ read_lines_default content
unfolding read_lines_with_avx2 read_lines_default
read_lines_equal [] = refl
read_lines_equal (c ∷ content) =
    ap (lines_at (c ∷ content) 0) (newline_positions_lem (c ∷ content))
    ∙ lines_at-default_loop (suc (length content)) (c ∷ content) 0 (omega arith)
