-- ===== src/Strings/Escape.antt =====
-- `encode_escape` and `decode_escape` of src/core/base/string_util.cc.
use femtolog.Prelude.{
  ℕ, ◌+◌, ◌*◌, ◌≤◌, List, [], ◌∷◌, ◌≡◌, ◌≢◌, refl, ap, ◌∙◌, true, false, ◌==◌, Bool-cases, inl, inr,
  if◌then◌else◌, length, arith,
}

abbrev pub backslash : ℕ
backslash = 92

-- The bytes that one byte is written as.
abbrev pub encode_byte : ℕ → List ℕ → List ℕ
encode_byte c out =
    if c == 10
    then backslash ∷ 110 ∷ out
    else (if c == 13
        then backslash ∷ 114 ∷ out
        else (if c == 9
            then backslash ∷ 116 ∷ out
            else (if c == backslash then backslash ∷ backslash ∷ out else c ∷ out)))

unfoldable pub encode_escape : List ℕ → List ℕ
encode_escape [] = []
encode_escape (c ∷ input) = encode_byte c (encode_escape input)

-- The byte behind a backslash, with what is read when it is skipped and when it is not.
abbrev pub decode_byte : ℕ → List ℕ → List ℕ → List ℕ
decode_byte d skipped kept =
    if d == 110
    then 10 ∷ skipped
    else (if d == 114
        then 13 ∷ skipped
        else (if d == 116
            then 9 ∷ skipped
            else (if d == backslash then backslash ∷ skipped else backslash ∷ kept)))

unfoldable pub decode_escape : List ℕ → List ℕ
decode_escape [] = []
decode_escape (c ∷ []) = c ∷ []
decode_escape (c ∷ d ∷ input) =
    let skipped = decode_escape input in
    let kept = decode_escape (d ∷ input) in
    if c == backslash then decode_byte d skipped kept else c ∷ kept

decode_plain :
    (c : ℕ) (input : List ℕ)
    → (c == backslash) ≡ false
    → decode_escape (c ∷ input) ≡ c ∷ decode_escape input
unfolding decode_escape
decode_plain c [] plain = refl
decode_plain c (d ∷ input) plain = rw plain refl

decode-encode_byte :
    (c : ℕ) (out : List ℕ) → decode_escape (encode_byte c out) ≡ c ∷ decode_escape out
unfolding decode_escape
decode-encode_byte c out = elim (Bool-cases (c == 10)) [
  | inl newline ↦ rw newline (ap (λ (n : ℕ). n ∷ decode_escape out) (equal 10 newline))
  | inr no_newline ↦ rw no_newline (elim (Bool-cases (c == 13)) [
    | inl return ↦ rw return (ap (λ (n : ℕ). n ∷ decode_escape out) (equal 13 return))
    | inr no_return ↦ rw no_return (elim (Bool-cases (c == 9)) [
      | inl tab ↦ rw tab (ap (λ (n : ℕ). n ∷ decode_escape out) (equal 9 tab))
      | inr no_tab ↦ rw no_tab (elim (Bool-cases (c == backslash)) [
        | inl slash ↦ rw slash (ap (λ (n : ℕ). n ∷ decode_escape out) (equal backslash slash))
        | inr plain ↦ rw plain (decode_plain c out plain)
      ])
    ])
  ])
]
  where
    equal : (n : ℕ) → (c == n) ≡ true → n ≡ c
    equal n h = ground arith

-- The bytes that `encode_escape` never leaves as they are.
abbrev pub IsClean : List ℕ → Type 0
IsClean [] = Unit
IsClean (c ∷ s) = (c ≢ 10) × (c ≢ 13) × (c ≢ 9) × IsClean s

encode_byte-IsClean : (c : ℕ) (out : List ℕ) → IsClean out → IsClean (encode_byte c out)
encode_byte-IsClean c out clean = elim (Bool-cases (c == 10)) [
  | inl newline ↦ rw newline (pair 110 (omega arith))
  | inr no_newline ↦ rw no_newline (elim (Bool-cases (c == 13)) [
    | inl return ↦ rw return (pair 114 (omega arith))
    | inr no_return ↦ rw no_return (elim (Bool-cases (c == 9)) [
      | inl tab ↦ rw tab (pair 116 (omega arith))
      | inr no_tab ↦ rw no_tab (elim (Bool-cases (c == backslash)) [
        | inl slash ↦ rw slash (pair backslash (omega arith))
        | inr plain ↦ rw plain (ground arith, ground arith, ground arith, clean)
      ])
    ])
  ])
]
  where
    pair : (d : ℕ) → 14 ≤ d → IsClean (backslash ∷ d ∷ out)
    pair d h =
        (omega arith, omega arith, omega arith, (omega arith, omega arith, omega arith, clean))

length-encode_byte : (c : ℕ) (out : List ℕ) → length (encode_byte c out) ≤ 2 + length out
length-encode_byte c out = ground arith

decode_nil : decode_escape [] ≡ []
unfolding decode_escape
decode_nil = refl

-- `decode_escape` undoes `encode_escape` on any bytes; what it decodes has no newline, carriage
-- return or tab in it; and the buffer of twice the input's size holds it.
pub decode-encode_escape :
    (input : List ℕ)
    → (decode_escape (encode_escape input) ≡ input)
      × IsClean (encode_escape input)
      × (length (encode_escape input) ≤ 2 * length input)
unfolding encode_escape
decode-encode_escape [] = (decode_nil, tt, omega arith)
decode-encode_escape (c ∷ input) =
    let (back, clean, short) = decode-encode_escape input in
    (
      decode-encode_byte c (encode_escape input) ∙ ap (λ s. c ∷ s) back,
      encode_byte-IsClean c (encode_escape input) clean,
      omega (arith, short, length-encode_byte c (encode_escape input)),
    )

-- `decode_escape` never writes more bytes than it reads.
pub length-decode_escape : (input : List ℕ) → length (decode_escape input) ≤ length input
unfolding decode_escape
length-decode_escape [] = omega arith
length-decode_escape (c ∷ []) = omega arith
length-decode_escape (c ∷ d ∷ input) =
    let skipped = length-decode_escape input in
    let kept = length-decode_escape (d ∷ input) in ground (arith, skipped, kept)
