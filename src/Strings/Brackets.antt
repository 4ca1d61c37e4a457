-- ===== src/Strings/Brackets.antt =====
-- `remove_bracket` of src/core/base/string_util.cc. `none` is an access past its stack.
pub mod Matching
use femtolog.Prelude.{
  ℕ, ◌+◌, ◌-◌, ◌*◌, ◌/◌, ◌≤◌, ◌<◌, List, [], ◌∷◌, ◌++◌, Option, none, some, ◌>>=◌, Bool, true,
  false, ◌&&◌, ◌≡◌, refl, sym, ap, ◌∙◌, ◌==◌, ltb, leb, if◌then◌else◌, Bool-cases, inl, inr,
  length-append, length, get_or, set, min, replicate, arith, append_assoc, append-nil, lt→ltb,
  ltb→lt, ◌≢◌, length-set, length-replicate, get_or-set_self, get_or-set_ne,
}

-- An entry of `bracket_map`: positive, negative or zero.
pub data Bracket : Type 0 where
  opening : ℕ → Bracket
  closing : ℕ → Bracket
  plain : Bracket

abbrev pub bracket_of : ℕ → Bracket
bracket_of c =
    if c == 40
    then opening 1
    else (if c == 41
        then closing 1
        else (if c == 123
            then opening 2
            else (if c == 125
                then closing 2
                else (if c == 91
                    then opening 3
                    else (if c == 93
                        then closing 3
                        else (if c == 60
                            then opening 4
                            else (if c == 62 then closing 4 else plain)))))))

pub record State : Type 0 where
  pub stack : List ℕ
  pub depth : ℕ
  pub output : List ℕ

-- The body of the loop, for the byte `c` and its kind.
unfoldable pub step : ℕ → ℕ → Bracket → State → Option State
step max_nest_size c (opening t) st =
    if ltb st.depth max_nest_size
    then (if ltb st.depth (length st.stack)
        then some (record st { stack = set st.stack st.depth t; depth = st.depth + 1 })
        else none)
    else some (record st { depth = st.depth + 1 })
step max_nest_size c (closing t) st =
    if ltb 0 st.depth
    then (if leb st.depth max_nest_size && get_or st.stack (st.depth - 1) 0 == t
        then some (record st { depth = st.depth - 1 })
        else (if ltb max_nest_size st.depth
            then some (record st { depth = st.depth - 1 })
            else some st))
    else some st
step max_nest_size c plain st =
    if st.depth == 0 then some (record st { output = st.output ++ (c ∷ []) }) else some st

unfoldable pub run : ℕ → List ℕ → State → Option State
unfolding step
run max_nest_size [] st = some st
run max_nest_size (c ∷ input) st =
    step max_nest_size c (bracket_of c) st >>= λ st'. run max_nest_size input st'

unfoldable pub remove_bracket : List ℕ → ℕ → Option (List ℕ)
unfolding run
remove_bracket input max_nest_size =
    if length input == 0
    then some []
    else (run max_nest_size input (record {
      stack = replicate (min (length input / 2) max_nest_size) 0;
      depth = 0;
      output = [];
    })
        >>= λ st. some st.output)
