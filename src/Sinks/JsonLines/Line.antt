-- ===== src/Sinks/JsonLines/Line.antt =====
-- The lines that `JsonLinesSink` makes, against the grammar.
use femtolog.Prelude.{
  ℕ, zero, suc, ◌+◌, ◌-◌, ◌*◌, ◌/◌, ◌%◌, ◌^◌, ◌≤◌, ◌<◌, List, [], ◌∷◌, ◌++◌, some, Bool, true, not,
  ◌&&◌, ◌||◌, and_true, leb, ◌≡◌, ◌≢◌, refl, sym, ap, ◌∙◌, ◌⊎◌, inl, inr, ◌==◌, ==_iff, arith,
  Bool-cases, get_or,
}
use femtolog.Level.{LogLevel, log_level_to_lower_str}
use femtolog.Strings.Escape.{encode_escape, encode_byte, backslash}
use femtolog.Sinks.JsonLines.{quote, digits, decimal}
use femtolog.Sinks.JsonLines.Grammar.{Chars, AreDigits, decimal_from, number, IsValue}

-- A byte that a JSON string takes as it stands.
abbrev is_plain : ℕ → Bool
is_plain c = leb 32 c && not (c == quote || c == backslash)

abbrev all_plain : List ℕ → Bool
all_plain [] = true
all_plain (c ∷ s) = is_plain c && all_plain s

pub plain-Chars : (s : List ℕ) → all_plain s ≡ true → Chars s s
plain-Chars [] h = Chars.ended
plain-Chars (c ∷ s) h =
    let (here, more) = and_true (is_plain c) (all_plain s) h in
    Chars.unescaped c (ground (arith, here)) (ground (arith, here)) (ground (arith, here))
      (plain-Chars s more)

pub level-Chars : (lvl : LogLevel) → Chars (log_level_to_lower_str lvl) (log_level_to_lower_str lvl)
unfolding log_level_to_lower_str
level-Chars LogLevel.raw = plain-Chars _ refl
level-Chars LogLevel.fatal = plain-Chars _ refl
level-Chars LogLevel.error = plain-Chars _ refl
level-Chars LogLevel.warn = plain-Chars _ refl
level-Chars LogLevel.info = plain-Chars _ refl
level-Chars LogLevel.debug = plain-Chars _ refl
level-Chars LogLevel.trace = plain-Chars _ refl
level-Chars LogLevel.unknown = plain-Chars _ refl

-- A message without double quotes, and without control bytes but for the three that are escaped.
abbrev pub IsLoggable : List ℕ → Type 0
IsLoggable [] = Unit
IsLoggable (c ∷ s) = ((c ≢ quote) × ((32 ≤ c) ⊎ (c ≡ 10) ⊎ (c ≡ 13) ⊎ (c ≡ 9))) × IsLoggable s

encode_byte-Chars :
    (c : ℕ) {out s : List ℕ}
    → (c ≢ quote)
    → ((32 ≤ c) ⊎ (c ≡ 10) ⊎ (c ≡ 13) ⊎ (c ≡ 9))
    → Chars out s
    → Chars (encode_byte c out) (c ∷ s)
encode_byte-Chars c {out} {s} no_quote allowed chars = elim (Bool-cases (c == 10)) [
  | inl newline ↦ rw newline (Chars.escaped b'n' (ap some (sym ((==_iff c 10).0 newline))) chars)
  | inr not_newline ↦ rw not_newline (elim (Bool-cases (c == 13)) [
    | inl return ↦ rw return (Chars.escaped b'r' (ap some (sym ((==_iff c 13).0 return))) chars)
    | inr not_return ↦ rw not_return (elim (Bool-cases (c == 9)) [
      | inl tab ↦ rw tab (Chars.escaped b't' (ap some (sym ((==_iff c 9).0 tab))) chars)
      | inr not_tab ↦ rw not_tab (elim (Bool-cases (c == backslash)) [
        | inl escape ↦
            rw escape
              (Chars.escaped backslash (ap some (sym ((==_iff c backslash).0 escape))) chars)
        | inr other ↦ rw other (
            Chars.unescaped c (ground (arith, not_newline, not_return, not_tab, allowed)) no_quote
              (ground (arith, other)) chars)
      ])
    ])
  ])
]

pub encode_escape-Chars :
    (content : List ℕ) → IsLoggable content → Chars (encode_escape content) content
unfolding encode_escape
encode_escape-Chars [] h = Chars.ended
encode_escape-Chars (c ∷ content) h =
    encode_byte-Chars c h.0.0 h.0.1 (encode_escape-Chars content h.1)

AreDigits-append : (xs : List ℕ) (d : ℕ) → AreDigits xs → d < 10 → AreDigits (xs ++ ((48 + d) ∷ []))
AreDigits-append [] d h lt = ((omega arith, omega (arith, lt)), tt)
AreDigits-append (x ∷ xs) d h lt = (h.0, AreDigits-append xs d h.1 lt)

decimal_from-append :
    (n : ℕ) (xs : List ℕ) (d : ℕ)
    → decimal_from n (xs ++ ((48 + d) ∷ [])) ≡ 10 * decimal_from n xs + d
decimal_from-append n [] d = omega arith
decimal_from-append n (x ∷ xs) d = decimal_from-append (10 * n + (x - 48)) xs d

digits-AreDigits : (fuel n : ℕ) → AreDigits (digits fuel n)
unfolding digits
digits-AreDigits zero n = tt
digits-AreDigits (suc fuel) n = elim (Bool-cases (n / 10 == 0)) [
  | inl last ↦ rw last ((omega arith, omega arith), tt)
  | inr more ↦ rw more (
      AreDigits-append (digits fuel (n / 10)) (n % 10) (digits-AreDigits fuel (n / 10))
        (omega arith))
]

decimal_from-digits : (fuel n : ℕ) → n < 10 ^ fuel → decimal_from 0 (digits fuel n) ≡ n
unfolding digits
decimal_from-digits zero n h = omega (arith, h)
decimal_from-digits (suc fuel) n h = elim (Bool-cases (n / 10 == 0)) [
  | inl last ↦ rw last (ground (arith, last))
  | inr more ↦ rw more (
      decimal_from-append 0 (digits fuel (n / 10)) (n % 10)
      ∙ omega (arith, decimal_from-digits fuel (n / 10) (omega (arith, h))))
]

first_of_more : (xs ys : List ℕ) → 48 < get_or xs 0 48 → 48 < get_or (xs ++ ys) 0 48
first_of_more [] ys h = absurd (omega (arith, h))
first_of_more (x ∷ xs) ys h = h

first_digit : (fuel n : ℕ) → 0 < n → n < 10 ^ fuel → 48 < get_or (digits fuel n) 0 48
unfolding digits
first_digit zero n pos h = absurd (omega (arith, pos, h))
first_digit (suc fuel) n pos h = elim (Bool-cases (n / 10 == 0)) [
  | inl last ↦ rw last (ground (arith, last, pos))
  | inr more ↦ rw more (
      first_of_more (digits fuel (n / 10)) _
        (first_digit fuel (n / 10) (ground (arith, more)) (omega (arith, h))))
]

pub decimal-IsValue : (n : ℕ) → n < 2 ^ 64 → IsValue (decimal n) (number n)
unfolding decimal
decimal-IsValue n h = (
  digits-AreDigits 20 n,
  elim (Bool-cases (n == 0)) [
    | inl none_left ↦ inl (ap (digits 20) ((==_iff n 0).0 none_left) ∙ zero_digits)
    | inr some_left ↦ inr (first_digit 20 n (ground (arith, some_left)) (omega (arith, h)))
  ],
  decimal_from-digits 20 n (omega (arith, h)),
)
  where
    zero_digits : digits 20 0 ≡ 48 ∷ []
    zero_digits = refl
