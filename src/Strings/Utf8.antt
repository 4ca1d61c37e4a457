-- ===== src/Strings/Utf8.antt =====
-- `utf8_char_length` and `utf8_truncate` of src/core/base/string_util.cc.
pub mod CodePoints
use femtolog.Prelude.{
  ℕ, zero, suc, ◌+◌, ◌≤◌, ◌^◌, ◌<◌, List, [], ◌∷◌, ◌++◌, ◌≡◌, refl, sym, ap, ap₂, ◌∙◌, Bool, true,
  false, ◌&&◌, ◌==◌, if◌then◌else◌, ltb, leb, length, take, get_or, get_or-append, append-nil,
  bit_and, arith, map, ◌/◌, ◌%◌, and_true, ==_iff, Bool-cases, inl, inr, length-take, length-append,
  take-append, append_assoc,
}
use mathlib.Core.List.{flatten}
use femtolog.Word.{add_size}

unfoldable pub utf8_char_length : ℕ → ℕ
utf8_char_length lead =
    if ltb lead 0x80
    then 1
    else (if bit_and lead 0xe0 == 0xc0
        then 2
        else (if bit_and lead 0xf0 == 0xe0
            then 3
            else (if bit_and lead 0xf8 == 0xf0 then 4 else 1)))

pub utf8_char_length_bounds : (lead : ℕ) → (1 ≤ utf8_char_length lead) × (utf8_char_length lead ≤ 4)
unfolding utf8_char_length
utf8_char_length_bounds lead = (ground arith, ground arith)

-- The loop of `utf8_truncate` from the byte index `i` on: the index where it stops. Its guard
-- `chars < max_chars` is what the first argument counts down.
unfoldable pub truncate_from : ℕ → List ℕ → ℕ → ℕ
unfolding utf8_char_length
truncate_from zero bytes i = i
truncate_from (suc left) bytes i =
    let next = add_size i (utf8_char_length (get_or bytes i 0)) in
    elim (ltb i (length bytes) && leb next (length bytes)) [
      | true ↦ truncate_from left bytes next
      | false ↦ i
    ]

unfoldable pub utf8_truncate : List ℕ → ℕ → List ℕ
unfolding truncate_from
utf8_truncate input max_chars = take (truncate_from max_chars input 0) input

-- A character: a lead byte and as many bytes as it asks for.
abbrev pub IsChar : List ℕ → Type 0
IsChar [] = ⊥
IsChar (lead ∷ more) = utf8_char_length lead ≡ 1 + length more

abbrev pub AreChars : List (List ℕ) → Type 0
AreChars [] = Unit
AreChars (c ∷ cs) = IsChar c × AreChars cs

-- Nothing, or a lead byte with too few bytes behind it.
abbrev pub IsCutOff : List ℕ → Type 0
IsCutOff [] = Unit
IsCutOff (lead ∷ more) = 1 + length more < utf8_char_length lead

-- The guard of the loop on the character at `i`.
abbrev whole : List ℕ → ℕ → Bool
whole bytes i =
    ltb i (length bytes) && leb (add_size i (utf8_char_length (get_or bytes i 0))) (length bytes)

halts :
    (left : ℕ) (bytes : List ℕ) (i : ℕ)
    → whole bytes i ≡ false
    → truncate_from (suc left) bytes i ≡ i
unfolding truncate_from
halts left bytes i stop =
    ap
      (λ b. elim b [
        | true ↦ truncate_from left bytes (add_size i (utf8_char_length (get_or bytes i 0)))
        | false ↦ i
      ])
      stop

advances :
    (left : ℕ) (bytes : List ℕ) (i : ℕ)
    → whole bytes i ≡ true
    → truncate_from (suc left) bytes i
      ≡ truncate_from left bytes (add_size i (utf8_char_length (get_or bytes i 0)))
unfolding truncate_from
advances left bytes i go =
    ap
      (λ b. elim b [
        | true ↦ truncate_from left bytes (add_size i (utf8_char_length (get_or bytes i 0)))
        | false ↦ i
      ])
      go

stops :
    (left : ℕ) (before tail : List ℕ)
    → IsCutOff tail
    → length (before ++ tail) < 2 ^ 63
    → truncate_from left (before ++ tail) (length before) ≡ length before
unfolding truncate_from
stops zero before tail cut small = refl
stops (suc left) before [] cut small =
    halts left (before ++ []) (length before) (ground (arith, length-append before []))
stops (suc left) before (lead ∷ more) cut small =
    halts left (before ++ (lead ∷ more)) (length before) (
      rw (get_or-append before (lead ∷ more) 0) (
        ground
          (arith, length-append before (lead ∷ more), utf8_char_length_bounds lead, cut, small)))

step_char :
    (left : ℕ) (before : List ℕ) (lead : ℕ) (more rest : List ℕ)
    → utf8_char_length lead ≡ 1 + length more
    → length (before ++ ((lead ∷ more) ++ rest)) < 2 ^ 63
    → truncate_from (suc left) (before ++ ((lead ∷ more) ++ rest)) (length before)
      ≡ truncate_from left ((before ++ (lead ∷ more)) ++ rest) (length (before ++ (lead ∷ more)))
step_char left before lead more rest size small =
    advances left (before ++ ((lead ∷ more) ++ rest)) (length before) inside
    ∙ ap₂ (λ (bytes : List ℕ) (i : ℕ). truncate_from left bytes i)
        (sym (append_assoc before (lead ∷ more) rest)) next
  where
    here : get_or (before ++ ((lead ∷ more) ++ rest)) (length before) 0 ≡ lead
    here = get_or-append before ((lead ∷ more) ++ rest) 0

    total :
        length (before ++ ((lead ∷ more) ++ rest))
        ≡ length before + (1 + (length more + length rest))
    total = omega (arith, length-append before ((lead ∷ more) ++ rest), length-append more rest)

    inside : whole (before ++ ((lead ∷ more) ++ rest)) (length before) ≡ true
    inside = rw here (ground (arith, size, total, small))

    next :
        add_size
          (length before)
          (utf8_char_length (get_or (before ++ ((lead ∷ more) ++ rest)) (length before) 0))
        ≡ length (before ++ (lead ∷ more))
    next = rw (here, size) (omega (arith, total, small, length-append before (lead ∷ more)))

truncate_from_lem :
    (left : ℕ) (before : List ℕ) (cs : List (List ℕ)) (tail : List ℕ)
    → AreChars cs
    → IsCutOff tail
    → length (before ++ (flatten cs ++ tail)) < 2 ^ 63
    → truncate_from left (before ++ (flatten cs ++ tail)) (length before)
      ≡ length (before ++ flatten (take left cs))
unfolding truncate_from flatten
truncate_from_lem zero before cs tail chars cut small = ap length (sym (append-nil before))
truncate_from_lem (suc left) before [] tail chars cut small =
    stops (suc left) before tail cut small ∙ ap length (sym (append-nil before))
truncate_from_lem (suc left) before ([] ∷ cs) tail chars cut small = absurd chars.0
truncate_from_lem (suc left) before ((lead ∷ more) ∷ cs) tail chars cut small =
    let c = lead ∷ more in
    let split = ap (λ s. before ++ s) (append_assoc c (flatten cs) tail) in
    ap (λ bytes. truncate_from (suc left) bytes (length before)) split
    ∙ step_char left before lead more (flatten cs ++ tail) chars.0
        (omega (arith, small, ap length split))
    ∙ truncate_from_lem left (before ++ c) cs tail chars.1 cut (
        omega
          (arith, small, ap length split, ap length (append_assoc before c (flatten cs ++ tail))))
    ∙ ap length (append_assoc before c (flatten (take left cs)))

flatten-take :
    (n : ℕ) (cs : List (List ℕ)) (tail : List ℕ)
    → (rest : List ℕ) × (flatten (take n cs) ++ rest ≡ flatten cs ++ tail)
unfolding flatten
flatten-take zero cs tail = (flatten cs ++ tail, refl)
flatten-take (suc n) [] tail = (tail, refl)
flatten-take (suc n) (c ∷ cs) tail =
    let (rest, e) = flatten-take n cs tail in
    (
      rest,
      append_assoc c (flatten (take n cs)) rest
          ∙ ap (λ s. c ++ s) e
          ∙ sym (append_assoc c (flatten cs) tail),
    )

pub truncate_chars :
    (cs : List (List ℕ)) (tail : List ℕ) (max_chars : ℕ)
    → AreChars cs
    → IsCutOff tail
    → length (flatten cs ++ tail) < 2 ^ 63
    → utf8_truncate (flatten cs ++ tail) max_chars ≡ flatten (take max_chars cs)
unfolding utf8_truncate
truncate_chars cs tail max_chars chars cut small =
    let (rest, e) = flatten-take max_chars cs tail in
    ap (λ (n : ℕ). take n (flatten cs ++ tail))
      (truncate_from_lem max_chars [] cs tail chars cut small)
    ∙ ap (take (length (flatten (take max_chars cs)))) (sym e)
    ∙ take-append (flatten (take max_chars cs)) rest
