-- ===== src/Sinks/JsonLines/Grammar.antt =====
-- The grammar of RFC 8259 that the lines of `JsonLinesSink` are to follow: objects whose members are
-- strings or unsigned integers. A string is taken byte by byte; whether the bytes from 0x80 on are UTF-8
-- is not looked at.
use femtolog.Prelude.{
  ℕ, ◌+◌, ◌-◌, ◌*◌, ◌≤◌, ◌<◌, List, [], ◌∷◌, ◌++◌, Option, none, some, ◌≡◌, ◌≢◌, ◌⊎◌, ◌||◌, ◌==◌,
  if◌then◌else◌, get_or,
}
use femtolog.Strings.Escape.{backslash}
use femtolog.Sinks.JsonLines.{quote, quoted}

-- What a letter behind a backslash stands for.
abbrev pub unescape : ℕ → Option ℕ
unescape e =
    if e == b'n'
    then some 10
    else (if e == b'r'
        then some 13
        else (if e == b't'
            then some 9
            else (if e == b'b'
                then some 8
                else (if e == b'f'
                    then some 12
                    else (if (e == quote || e == backslash) || e == b'/' then some e else none)))))

-- The bytes of a string between its quotes, and the text that they stand for.
pub data Chars : List ℕ → List ℕ → Type 0 where
  ended : Chars [] []
  unescaped :
      (c : ℕ) {raw text : List ℕ}
      → 32 ≤ c
      → c ≢ quote
      → c ≢ backslash
      → Chars raw text
      → Chars (c ∷ raw) (c ∷ text)
  escaped :
      (e : ℕ) {c : ℕ} {raw text : List ℕ}
      → unescape e ≡ some c
      → Chars raw text
      → Chars (backslash ∷ e ∷ raw) (c ∷ text)

abbrev pub AreDigits : List ℕ → Type 0
AreDigits [] = Unit
AreDigits (d ∷ ds) = ((48 ≤ d) × (d ≤ 57)) × AreDigits ds

-- The number of some digits behind the digits of `n`.
abbrev pub decimal_from : ℕ → List ℕ → ℕ
decimal_from n [] = n
decimal_from n (d ∷ ds) = decimal_from (10 * n + (d - 48)) ds

pub data Value : Type 0 where
  number : ℕ → Value
  text : List ℕ → Value

-- An integer has no zero in front, but for zero itself.
abbrev pub IsValue : List ℕ → Value → Type 0
IsValue raw (number n) =
    AreDigits raw × ((raw ≡ 48 ∷ []) ⊎ (48 < get_or raw 0 48)) × (decimal_from 0 raw ≡ n)
IsValue raw (text s) = (chars : List ℕ) × (raw ≡ quoted chars) × Chars chars s

-- The members of an object, its closing brace, and what stands behind it.
pub data Members : List ℕ → List (List ℕ × Value) → List ℕ → Type 0 where
  last_member :
      {raw key : List ℕ} (value : List ℕ) (v : Value) (after : List ℕ)
      → Chars raw key
      → IsValue value v
      → Members (quoted raw ++ (b':' ∷ 32 ∷ (value ++ (b'}' ∷ after)))) ((key, v) ∷ []) after
  member :
      {raw key : List ℕ} (value : List ℕ) (v : Value) {rest after : List ℕ}
      {more : List (List ℕ × Value)}
      → Chars raw key
      → IsValue value v
      → Members rest more after
      → Members (quoted raw ++ (b':' ∷ 32 ∷ (value ++ (b',' ∷ 32 ∷ rest)))) ((key, v) ∷ more) after

-- The text starts with an object of these members, and `after` stands behind it.
abbrev pub Object : List ℕ → List (List ℕ × Value) → List ℕ → Type 0
Object [] members after = ⊥
Object (c ∷ inner) members after = (c ≡ b'{') × Members inner members after
