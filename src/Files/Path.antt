-- ===== src/Files/Path.antt =====
-- The path functions of src/core/base/file_util.cc, and `join_path` of its header.
pub mod Pieces
pub mod Extension
pub mod Join
use femtolog.Prelude.{
  ℕ, suc, ◌+◌, ◌-◌, List, [], ◌∷◌, ◌++◌, Option, none, some, Bool, true, false, not, ◌&&◌, ◌||◌,
  length, take, drop, ltb, ◌==◌, if◌then◌else◌,
}

-- `FEMTOLOG_DIR_SEPARATOR`
abbrev pub separator : ℕ
separator = b'/'

abbrev pub dot : ℕ
dot = b'.'

-- `s.find_last_of(c)` for one character
unfoldable pub find_last_of : ℕ → List ℕ → Option ℕ
find_last_of c [] = none
find_last_of c (x ∷ s) = elim (find_last_of c s) [
  | some k ↦ some (suc k)
  | none ↦ if x == c then some 0 else none
]

-- `path.substr(0, pos)` and `path.substr(pos + 1)`, where `pos` is not `npos`.
abbrev pub before : Option ℕ → List ℕ → List ℕ
before none path = []
before (some pos) path = take pos path

abbrev pub behind : Option ℕ → List ℕ → List ℕ
behind none path = []
behind (some pos) path = drop (suc pos) path

unfoldable pub parent_dir : List ℕ → List ℕ
unfolding find_last_of
parent_dir path = before (find_last_of separator path) path

unfoldable pub base_name : List ℕ → List ℕ
unfolding find_last_of
base_name path = behind (find_last_of separator path) path

-- `filename_part` of `file_name_without_extension`
abbrev pub filename_part : Option ℕ → List ℕ → List ℕ
filename_part none path = path
filename_part (some last_slash) path = drop (suc last_slash) path

-- The dot at `last_dot` stands in a directory, or opens the name of a hidden file.
abbrev pub opens_no_extension : Option ℕ → ℕ → Bool
opens_no_extension none last_dot = last_dot == 0
opens_no_extension (some last_slash) last_dot =
    ltb last_dot last_slash || ((last_dot == 0) || (last_dot == last_slash + 1))

abbrev pub extension_at : Option ℕ → Option ℕ → List ℕ → List ℕ
extension_at last_slash none path = []
extension_at last_slash (some last_dot) path =
    if opens_no_extension last_slash last_dot then [] else drop (suc last_dot) path

unfoldable pub file_extension : List ℕ → List ℕ
unfolding find_last_of
file_extension path = extension_at (find_last_of separator path) (find_last_of dot path) path

abbrev pub relative_dot_pos : Option ℕ → ℕ → ℕ
relative_dot_pos none last_dot = last_dot
relative_dot_pos (some last_slash) last_dot = last_dot - (last_slash + 1)

abbrev pub stem_at : Option ℕ → Option ℕ → List ℕ → List ℕ
stem_at last_slash none path = filename_part last_slash path
stem_at last_slash (some last_dot) path =
    if opens_no_extension last_slash last_dot
    then filename_part last_slash path
    else take (relative_dot_pos last_slash last_dot) (filename_part last_slash path)

unfoldable pub file_name_without_extension : List ℕ → List ℕ
unfolding find_last_of
file_name_without_extension path =
    stem_at (find_last_of separator path) (find_last_of dot path) path

unfoldable pub drop_leading : List ℕ → List ℕ
drop_leading [] = []
drop_leading (c ∷ rest) = if c == separator then rest else c ∷ rest

unfoldable pub drop_trailing : List ℕ → List ℕ
drop_trailing [] = []
drop_trailing (c ∷ []) = if c == separator then [] else c ∷ []
drop_trailing (c ∷ d ∷ rest) = c ∷ drop_trailing (d ∷ rest)

unfoldable pub sanitize_component : List ℕ → Bool → List ℕ
unfolding drop_leading drop_trailing
sanitize_component part is_first = drop_trailing (if not is_first then drop_leading part else part)

-- The fold over the parts, with `joined` and `is_first`.
unfoldable pub join_from : List ℕ → Bool → List (List ℕ) → List ℕ
unfolding sanitize_component
join_from joined is_first [] = joined
join_from joined is_first (part ∷ parts) =
    let sanitized : List ℕ = sanitize_component part is_first in
    let empty : Bool = length sanitized == 0 in
    join_from
      (if empty
        then joined
        else (if is_first then joined ++ sanitized else joined ++ (separator ∷ sanitized)))
      (is_first && empty) parts

unfoldable pub join_path : List (List ℕ) → List ℕ
unfolding join_from
join_path parts = join_from [] true parts
