-- ===== src/Strings/Case.antt =====
-- `to_lower` and `to_upper` of include/femtolog/core/base/string_util.h and
-- src/core/base/string_util.cc. A null pointer is `none`; a C string is its bytes with the terminator.
use femtolog.Prelude.{
  ℕ, zero, suc, ◌+◌, ◌-◌, ◌<◌, List, [], ◌∷◌, ◌++◌, ◌≡◌, refl, sym, ap, ap₂, ◌∙◌, Option, none,
  some, Bool, true, ◌&&◌, ◌==◌, if◌then◌else◌, Bool-cases, inl, inr, length, take, drop, arith, leb,
  ltb, bit_and, ==_iff, and_true, subst,
}
use Prim.Native.Nat.{bit_or}

abbrev pub lower_char : ℕ → ℕ
lower_char c = if leb 65 c && leb c 90 then bit_or c 0x20 else c

-- `c & ~0x20`, cut to eight bits.
abbrev pub upper_char : ℕ → ℕ
upper_char c = if leb 97 c && leb c 122 then bit_and c 0xdf else c

-- The overload on `std::string`, in place or not.
unfoldable pub to_lower : List ℕ → List ℕ
to_lower [] = []
to_lower (c ∷ s) = lower_char c ∷ to_lower s

unfoldable pub to_upper : List ℕ → List ℕ
to_upper [] = []
to_upper (c ∷ s) = upper_char c ∷ to_upper s

-- The overload on a pointer and a length; none for a fault.
unfoldable pub to_lower_n : Option (List ℕ) → ℕ → Option (Option (List ℕ))
unfolding to_lower
to_lower_n none len = some none
to_lower_n (some s) len =
    if leb len (length s) then some (some (to_lower (take len s) ++ drop len s)) else none

-- The letter number `k` of the alphabet, by case.
letters_below : ℕ → Bool
letters_below zero = true
letters_below (suc k) =
    bit_or (65 + k) 0x20 == 97 + k && (bit_and (97 + k) 0xdf == 65 + k && letters_below k)

letters : letters_below 26 ≡ true
unfolding letters_below
letters = refl

letter_lem :
    (n k : ℕ)
    → letters_below n ≡ true
    → k < n
    → (bit_or (65 + k) 0x20 ≡ 97 + k) × (bit_and (97 + k) 0xdf ≡ 65 + k)
unfolding letters_below
letter_lem zero k h less = absurd (omega arith)
letter_lem (suc n) k h less =
    let (low, others) = and_true (bit_or (65 + n) 0x20 == 97 + n) _ h in
    let (up, below) = and_true (bit_and (97 + n) 0xdf == 65 + n) _ others in
    elim (Bool-cases (ltb k n)) [
      | inl earlier ↦ letter_lem n k below (ground arith)
      | inr last ↦
          subst (λ (j : ℕ). (bit_or (65 + j) 0x20 ≡ 97 + j) × (bit_and (97 + j) 0xdf ≡ 65 + j))
            (ground arith) ((==_iff _ _).0 low, (==_iff _ _).0 up)
    ]

lower_letter : (k : ℕ) → k < 26 → bit_or (65 + k) 0x20 ≡ 97 + k
lower_letter k less = (letter_lem 26 k letters less).0

upper_letter : (k : ℕ) → k < 26 → bit_and (97 + k) 0xdf ≡ 65 + k
upper_letter k less = (letter_lem 26 k letters less).1

-- What the bit operations come to on letters.
lower_char_lem : (c : ℕ) → lower_char c ≡ (if leb 65 c && leb c 90 then c + 32 else c)
lower_char_lem c = elim (Bool-cases (leb 65 c && leb c 90)) [
  | inl capital ↦
      let offset : 65 + (c - 65) ≡ c = ground (arith, capital) in
      let small : c - 65 < 26 = ground (arith, capital) in
      rw capital (
        ap (λ (d : ℕ). bit_or d 0x20) (sym offset)
        ∙ lower_letter (c - 65) small
        ∙ omega (arith, offset))
  | inr other ↦ rw other refl
]

upper_char_lem : (c : ℕ) → upper_char c ≡ (if leb 97 c && leb c 122 then c - 32 else c)
upper_char_lem c = elim (Bool-cases (leb 97 c && leb c 122)) [
  | inl small_letter ↦
      let offset : 97 + (c - 97) ≡ c = ground (arith, small_letter) in
      let small : c - 97 < 26 = ground (arith, small_letter) in
      rw small_letter (
        ap (λ (d : ℕ). bit_and d 0xdf) (sym offset)
        ∙ upper_letter (c - 97) small
        ∙ omega (arith, offset))
  | inr other ↦ rw other refl
]

-- The laws of the two conversions on one byte, from those of their arithmetic.
abbrev lower_number : ℕ → ℕ
lower_number c = if leb 65 c && leb c 90 then c + 32 else c

abbrev upper_number : ℕ → ℕ
upper_number c = if leb 97 c && leb c 122 then c - 32 else c

char_laws :
    (c : ℕ)
    → (lower_char (lower_char c) ≡ lower_char c)
      × (upper_char (upper_char c) ≡ upper_char c)
      × (upper_char (lower_char c) ≡ upper_char c)
      × (lower_char (upper_char c) ≡ lower_char c)
char_laws c = (
  lower_char_lem (lower_char c)
      ∙ ap lower_number (lower_char_lem c)
      ∙ ground arith
      ∙ sym (lower_char_lem c),
  upper_char_lem (upper_char c)
      ∙ ap upper_number (upper_char_lem c)
      ∙ ground arith
      ∙ sym (upper_char_lem c),
  upper_char_lem (lower_char c)
      ∙ ap upper_number (lower_char_lem c)
      ∙ ground arith
      ∙ sym (upper_char_lem c),
  lower_char_lem (upper_char c)
      ∙ ap lower_number (upper_char_lem c)
      ∙ ground arith
      ∙ sym (lower_char_lem c),
)

-- `to_lower` and `to_upper` are idempotent, each forgets what the other did, and neither changes the
-- length.
pub case_lem :
    (s : List ℕ)
    → (to_lower (to_lower s) ≡ to_lower s)
      × (to_upper (to_upper s) ≡ to_upper s)
      × (to_upper (to_lower s) ≡ to_upper s)
      × (to_lower (to_upper s) ≡ to_lower s)
      × (length (to_lower s) ≡ length s)
      × (length (to_upper s) ≡ length s)
unfolding to_lower to_upper
case_lem [] = (refl, refl, refl, refl, refl, refl)
case_lem (c ∷ s) =
    let (ll, uu, ul, lu) = char_laws c in
    let (lls, uus, uls, lus, low, up) = case_lem s in
    (
      ap₂ (λ (d : ℕ) t. d ∷ t) ll lls,
      ap₂ (λ (d : ℕ) t. d ∷ t) uu uus,
      ap₂ (λ (d : ℕ) t. d ∷ t) ul uls,
      ap₂ (λ (d : ℕ) t. d ∷ t) lu lus,
      ap suc low,
      ap suc up,
    )
