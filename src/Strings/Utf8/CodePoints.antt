-- ===== src/Strings/Utf8/CodePoints.antt =====
-- `utf8_truncate` of src/core/base/string_util.cc on encoded code points.
use femtolog.Prelude.{
  ℕ, zero, suc, ◌+◌, ◌^◌, ◌<◌, List, [], ◌∷◌, ◌++◌, ◌≡◌, refl, ap, ◌∙◌, Bool, true, ◌&&◌, ◌==◌,
  if◌then◌else◌, ltb, length, take, arith, map, ◌/◌, ◌%◌, and_true, ==_iff, Bool-cases, inl, inr,
  length-take,
}
use mathlib.Core.List.{flatten}
use femtolog.Strings.Utf8.{
  utf8_char_length, utf8_truncate, IsChar, AreChars, IsCutOff, truncate_chars,
}

-- The UTF-8 encoding of a code point, as RFC 3629 gives it.
abbrev pub encode : ℕ → List ℕ
encode cp =
    if ltb cp 0x80
    then cp ∷ []
    else (if ltb cp 0x800
        then (0xc0 + cp / 64) ∷ (0x80 + cp % 64) ∷ []
        else (if ltb cp 0x10000
            then (0xe0 + cp / 4096) ∷ (0x80 + cp / 64 % 64) ∷ (0x80 + cp % 64) ∷ []
            else (0xf0 + cp / 262144)
              ∷ (0x80 + cp / 4096 % 64)
              ∷ (0x80 + cp / 64 % 64)
              ∷ (0x80 + cp % 64)
              ∷ []))

abbrev pub encode_all : List ℕ → List ℕ
encode_all cps = flatten (map encode cps)

abbrev pub AreCodePoints : List ℕ → Type 0
AreCodePoints [] = Unit
AreCodePoints (cp ∷ cps) = (cp < 0x110000) × AreCodePoints cps

abbrev all_below : (ℕ → Bool) → ℕ → Bool
all_below p zero = true
all_below p (suc n) = p n && all_below p n

all_below-at : (p : ℕ → Bool) (n i : ℕ) → all_below p n ≡ true → i < n → p i ≡ true
all_below-at p zero i h lt = absurd (omega (arith, lt))
all_below-at p (suc n) i h lt =
    let (here, below) = and_true (p n) (all_below p n) h in
    elim (Bool-cases (i == n)) [
      | inl last ↦ ap p ((==_iff i n).0 last) ∙ here
      | inr other ↦ all_below-at p n i below (ground (arith, lt, other))
    ]

-- Lead bytes from `base` on ask for `size` bytes.
lead_size :
    (base size n : ℕ)
    → all_below (λ a. utf8_char_length (base + a) == size) n ≡ true
    → (a : ℕ) → a < n
    → utf8_char_length (base + a) ≡ size
lead_size base size n table a lt =
    (==_iff (utf8_char_length (base + a)) size).0
      (all_below-at (λ b. utf8_char_length (base + b) == size) n a table lt)

one : (lead : ℕ) → ltb lead 0x80 ≡ true → utf8_char_length lead ≡ 1
unfolding utf8_char_length
one lead e = rw e refl

table_two : all_below (λ a. utf8_char_length (0xc0 + a) == 2) 32 ≡ true
unfolding utf8_char_length
table_two = refl

table_three : all_below (λ a. utf8_char_length (0xe0 + a) == 3) 16 ≡ true
unfolding utf8_char_length
table_three = refl

table_four : all_below (λ a. utf8_char_length (0xf0 + a) == 4) 5 ≡ true
unfolding utf8_char_length
table_four = refl

encode-IsChar : (cp : ℕ) → cp < 0x110000 → IsChar (encode cp)
encode-IsChar cp h = elim (Bool-cases (ltb cp 0x80)) [
  | inl ascii ↦ rw ascii (one cp ascii)
  | inr past_one ↦ rw past_one (elim (Bool-cases (ltb cp 0x800)) [
    | inl two ↦ rw two (lead_size 0xc0 2 32 table_two (cp / 64) (ground (arith, two)))
    | inr past_two ↦ rw past_two (elim (Bool-cases (ltb cp 0x10000)) [
      | inl three ↦ rw three (lead_size 0xe0 3 16 table_three (cp / 4096) (ground (arith, three)))
      | inr past_three ↦
          rw past_three (lead_size 0xf0 4 5 table_four (cp / 262144) (omega (arith, h)))
    ])
  ])
]

encode_all-AreChars : (cps : List ℕ) → AreCodePoints cps → AreChars (map encode cps)
encode_all-AreChars [] h = tt
encode_all-AreChars (cp ∷ cps) h = (encode-IsChar cp h.0, encode_all-AreChars cps h.1)

take-IsCutOff : (c : List ℕ) (k : ℕ) → IsChar c → k < length c → IsCutOff (take k c)
take-IsCutOff [] k char lt = absurd char
take-IsCutOff (lead ∷ more) zero char lt = tt
take-IsCutOff (lead ∷ more) (suc k) char lt = omega (arith, char, lt, length-take k more)

map-take : (n : ℕ) (cps : List ℕ) → take n (map encode cps) ≡ map encode (take n cps)
map-take zero cps = refl
map-take (suc n) [] = refl
map-take (suc n) (cp ∷ cps) = ap (λ cs. encode cp ∷ cs) (map-take n cps)

-- Of a text of less than `2 ^ 63` bytes that is the UTF-8 encoding of some code points, and perhaps of
-- a last one that is cut off, `utf8_truncate` keeps exactly the encoding of the first `max_chars` code
-- points, without the one that is cut off.
pub utf8_truncate_lem :
    (cps : List ℕ) (last k max_chars : ℕ)
    → AreCodePoints cps
    → last < 0x110000
    → k < length (encode last)
    → length (encode_all cps ++ take k (encode last)) < 2 ^ 63
    → utf8_truncate (encode_all cps ++ take k (encode last)) max_chars
      ≡ encode_all (take max_chars cps)
utf8_truncate_lem cps last k max_chars points point cut small =
    truncate_chars (map encode cps) (take k (encode last)) max_chars
      (encode_all-AreChars cps points)
      (take-IsCutOff (encode last) k (encode-IsChar last point) cut) small
    ∙ ap flatten (map-take max_chars cps)
