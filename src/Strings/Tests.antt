-- ===== src/Strings/Tests.antt =====
-- Runs of src/core/base/string_util.cc, and instances of the theorems.
use mathlib.Core.List.{flatten}
use femtolog.Prelude.{◌*◌, ◌≤◌, ◌++◌, [], ◌∷◌, some, none, ◌≡◌, refl, arith, length, take}
use femtolog.Level.{codes}
use femtolog.Strings.Escape.{encode_escape, decode_escape, IsClean, decode-encode_escape}
use femtolog.Strings.Brackets.{step, run, remove_bracket}
use femtolog.Strings.Brackets.Matching.{done, keep, group, remove_bracket_lem}
use femtolog.Strings.Utf8.{utf8_char_length, truncate_from, utf8_truncate}
use femtolog.Strings.Utf8.CodePoints.{encode, encode_all, utf8_truncate_lem}
use femtolog.Strings.Split.{
  Splits, AreBytes, join, is_prefix, find, split_from, split_string, split_string_lem,
}

split_run :
    (split_string (codes "a,b,,c") (codes ",") ≡ codes "a" ∷ codes "b" ∷ [] ∷ codes "c" ∷ [])
    × (split_string (codes "a,") (codes ",") ≡ codes "a" ∷ [])
unfolding split_string split_from find is_prefix
split_run = (refl, refl)

split_string_example :
    Splits (codes "--") (codes "a--b--") (split_string (codes "a--b--") (codes "--"))
    × AreBytes (split_string (codes "a--b--") [])
    × (join [] (split_string (codes "a--b--") []) ≡ codes "a--b--")
split_string_example = split_string_lem (codes "a--b--") 45 (codes "-")

decode-encode_example :
    (decode_escape (encode_escape (9 ∷ 92 ∷ 10 ∷ [])) ≡ 9 ∷ 92 ∷ 10 ∷ [])
    × IsClean (encode_escape (9 ∷ 92 ∷ 10 ∷ []))
    × (length (encode_escape (9 ∷ 92 ∷ 10 ∷ [])) ≤ 2 * 3)
decode-encode_example = decode-encode_escape (9 ∷ 92 ∷ 10 ∷ [])

-- An "é", an "a", and the first two bytes of a euro sign.
utf8_truncate_example :
    utf8_truncate (encode_all (0xe9 ∷ 97 ∷ []) ++ take 2 (encode 0x20ac)) 3
    ≡ encode_all (take 3 (0xe9 ∷ 97 ∷ []))
unfolding flatten
utf8_truncate_example =
    utf8_truncate_lem (0xe9 ∷ 97 ∷ []) 0x20ac 2 3 (omega arith, (omega arith, tt)) (omega arith)
      (omega arith) (omega arith)

utf8_truncate_run :
    utf8_truncate (encode_all (0x20ac ∷ 0x1f600 ∷ 97 ∷ [])) 2
    ≡ 0xe2 ∷ 0x82 ∷ 0xac ∷ 0xf0 ∷ 0x9f ∷ 0x98 ∷ 0x80 ∷ []
unfolding flatten utf8_truncate truncate_from utf8_char_length
utf8_truncate_run = refl

-- Three brackets that are opened need more stack than half of the input.
brackets_run :
    (remove_bracket (codes "a(b[c])d") 32 ≡ some (codes "ad"))
    × (remove_bracket (codes "(((") 32 ≡ none)
unfolding remove_bracket run step
brackets_run = (refl, refl)

remove_bracket_example : remove_bracket (codes "a(b)") 1 ≡ some (codes "a")
remove_bracket_example =
    remove_bracket_lem 1 (keep 97 refl (group 40 41 1 refl refl (keep 98 refl done) done))
